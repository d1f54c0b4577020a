-- ===== src/Examples/Idle.antt =====
-- arale/examples/idleconnection/Echo.h and Echo.cc: a ring of buckets that shuts idle connections.
pub mod Ring
mod Tests
use arale.Prelude.{
  ℕ, zero, suc, Bool, true, false, not, ◌||◌, List, [], ◌∷◌, ◌++◌, Outcome, ok, undefined, ◌>>=◌,
  ◌==◌, if◌then◌else◌, replicate,
}

-- A connection has one `Entry`, which lives as long as a bucket has it; both are a number.
abbrev pub Bucket : Type 0
Bucket = List ℕ

abbrev pub has : ℕ → Bucket → Bool
has c [] = false
has c (d ∷ ds) = (d == c) || has c ds

abbrev pub insert : ℕ → Bucket → Bucket
insert c b = if has c b then b else c ∷ b

-- The ring, from its front. It is full from the start.
abbrev pub new_ring : ℕ → List Bucket
new_ring idle_seconds = replicate idle_seconds []

abbrev pub held : ℕ → List Bucket → Bool
held c [] = false
held c (b ∷ bs) = has c b || held c bs

-- `connections_.back().insert(entry)`.
unfoldable pub insert_back : ℕ → List Bucket → Outcome (List Bucket)
insert_back c [] = undefined
insert_back c (b ∷ []) = ok (insert c b ∷ [])
insert_back c (b ∷ d ∷ bs) = do rest ← insert_back c (d ∷ bs); ok (b ∷ rest)

-- A connection that is up. One that is down leaves its entry where it is.
abbrev pub on_connection : Bool → ℕ → List Bucket → Outcome (List Bucket)
on_connection true c bs = insert_back c bs
on_connection false c bs = ok bs

-- The entry may be gone.
abbrev pub on_message : ℕ → List Bucket → Outcome (List Bucket)
on_message c bs = if held c bs then insert_back c bs else ok bs

-- The entries that are destroyed with a bucket; their connections are shut down.
abbrev pub gone : Bucket → List Bucket → List ℕ
gone [] rest = []
gone (c ∷ cs) rest = let later = gone cs rest in if held c rest then later else c ∷ later

-- `push_back(Bucket())` of a full ring overwrites the front; one of no capacity stays empty.
unfoldable pub on_timer : List Bucket → List Bucket × List ℕ
on_timer [] = ([], [])
on_timer (b ∷ bs) = (bs ++ [] ∷ [], gone b bs)

-- Seconds without a message.
unfoldable pub seconds : ℕ → List Bucket → List Bucket
unfolding on_timer
seconds zero bs = bs
seconds (suc k) bs = seconds k (on_timer bs).0
