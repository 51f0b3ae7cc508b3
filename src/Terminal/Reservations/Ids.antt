-- ===== src/Terminal/Reservations/Ids.antt =====
-- The map from reserved containers to their reservations, under claims and releases.
use terminal_sim.Prelude.{
  suc, ◌+◌, ◌≤◌, ◌≡◌, refl, Bool, true, false, not, ◌&&◌, none, some, List, [], ◌∷◌, length,
  if◌then◌else◌, Text, text_eq, arith,
}
use terminal_sim.Prelude.Maps
use terminal_sim.Prelude.Sets
use terminal_sim.Terminal.Reservations.{claim_all, unclaim_all}

-- No text stands twice.
unfoldable pub no_repeat : List Text → Bool
no_repeat [] = true
no_repeat (id ∷ ids) = not (Sets.contains id ids) && no_repeat ids

unfoldable pub all_in : List (Text × Text) → List Text → Bool
all_in m [] = true
all_in m (id ∷ ids) = Maps.has id m && all_in m ids

pub lookup-claim_all :
    (rid c : Text) (ids : List Text) (m : List (Text × Text))
    → Maps.lookup c (claim_all rid ids m)
      ≡ (if Sets.contains c ids then some rid else Maps.lookup c m)
unfolding claim_all Sets.contains
lookup-claim_all rid c [] m = refl
lookup-claim_all rid c (id ∷ ids) m =
    ground (arith, lookup-claim_all rid c ids (Maps.insert id rid m), Maps.lookup-insert id c rid m)

pub lookup-unclaim_all :
    (c : Text) (ids : List Text) (m : List (Text × Text))
    → Maps.lookup c (unclaim_all ids m) ≡ (if Sets.contains c ids then none else Maps.lookup c m)
unfolding unclaim_all Sets.contains
lookup-unclaim_all c [] m = refl
lookup-unclaim_all c (id ∷ ids) m =
    ground (arith, lookup-unclaim_all c ids (Maps.remove id m), Maps.lookup-remove id c m)

length-insert :
    {V : Type 0} (k : Text) (v : V) (m : List (Text × V))
    → length (Maps.insert k v m) ≤ suc (length m)
unfolding Maps.insert
length-insert k v [] = ground arith
length-insert k v ((j, w) ∷ m) = ground (arith, length-insert k v m)

length-remove :
    {V : Type 0} (k : Text) (m : List (Text × V))
    → length (Maps.remove k m) + (if Maps.has k m then 1 else 0) ≤ length m
unfolding Maps.remove Maps.has
length-remove k [] = ground arith
length-remove k ((j, w) ∷ m) = ground (arith, length-remove k m)

pub length-claim_all :
    (rid : Text) (ids : List Text) (m : List (Text × Text))
    → length (claim_all rid ids m) ≤ length m + length ids
unfolding claim_all
length-claim_all rid [] m = ground arith
length-claim_all rid (id ∷ ids) m =
    ground (arith, length-claim_all rid ids (Maps.insert id rid m), length-insert id rid m)

pub length-unclaim_all :
    (ids : List Text) (m : List (Text × Text)) → length (unclaim_all ids m) ≤ length m
unfolding unclaim_all
length-unclaim_all [] m = ground arith
length-unclaim_all (id ∷ ids) m =
    ground (arith, length-unclaim_all ids (Maps.remove id m), length-remove id m)

all_in-remove :
    (id : Text) (ids : List Text) (m : List (Text × Text))
    → Sets.contains id ids ≡ false
    → all_in m ids ≡ true
    → all_in (Maps.remove id m) ids ≡ true
unfolding all_in Sets.contains
all_in-remove id [] m fresh all = refl
all_in-remove id (j ∷ ids) m fresh all = ground (
  arith,
  all_in-remove id ids m,
  Maps.has-remove id j m,
  text_eq.same_iff id j,
  text_eq.same_iff j id,
)

-- Dropping ids that are all there, each once, leaves that many fewer.
pub length-unclaim_all_exact :
    (ids : List Text) (m : List (Text × Text))
    → no_repeat ids ≡ true
    → all_in m ids ≡ true
    → length (unclaim_all ids m) + length ids ≤ length m
unfolding unclaim_all no_repeat all_in
length-unclaim_all_exact [] m once all = ground arith
length-unclaim_all_exact (id ∷ ids) m once all = ground (
  arith,
  length-unclaim_all_exact ids (Maps.remove id m),
  all_in-remove id ids m,
  length-remove id m,
)
