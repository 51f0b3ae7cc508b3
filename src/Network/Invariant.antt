-- ===== src/Network/Invariant.antt =====
-- What holds of a network between two calls: of src/terminal/terminal_graph.cpp.
pub mod Keeps
pub mod Added
pub mod Routed
use terminal_sim.Prelude.{
  ◌≡◌, ◌≢◌, ◌⊎◌, ⊎_elim, inl, inr, refl, sym, ap, ◌∙◌, subst, Bool, true, false, not, ◌||◌, Option,
  none, some, List, [], ◌∷◌, Text, text_eq, arith, if_elim, if◌then◌else◌, ◌==◌, Eq,
}
use terminal_sim.Prelude.Maps
use terminal_sim.Prelude.Sets
use terminal_sim.Common.{Mode}
use terminal_sim.Graph.{EdgeKey, Graph, key_eq}
use terminal_sim.Graph.WellFormed.{WellFormed}
use terminal_sim.Network.{EdgeData, Network}
use terminal_sim.Network.Routes.{put_edge, put_edge_data}
use terminal_sim.Network.Terminals.{forget_all, name_all, set_of, without_edges_of}

-- A predicate on every entry of a map.
abbrev pub AllEntries : {K A : Type 0} → (K × A → Type 0) → List (K × A) → Type 0
AllEntries P [] = Unit {0}
AllEntries P (entry ∷ entries) = P entry × AllEntries P entries

pub AllEntries-map :
    {K A : Type 0} (P R : K × A → Type 0) (m : List (K × A))
    → ((entry : K × A) → P entry → R entry)
    → AllEntries P m
    → AllEntries R m
AllEntries-map P R [] f h = tt
AllEntries-map P R (entry ∷ m) f h = (f entry h.0, AllEntries-map P R m f h.1)

pub AllEntries-insert :
    {K A : Type 0} ⦃e : Eq K⦄ (P : K × A → Type 0) (k : K) (a : A) (m : List (K × A))
    → P (k, a)
    → AllEntries P m
    → AllEntries P (Maps.insert k a m)
unfolding Maps.insert
AllEntries-insert P k a [] p h = (p, tt)
AllEntries-insert P k a ((j, b) ∷ m) p h =
    let rest = AllEntries-insert P k a m p h.1 in
    if_elim (AllEntries P) (j == k) (λ _. (p, h.1)) (λ _. (h.0, rest))

-- What is read at a key is good, if the default is.
pub AllEntries-get_or :
    {K A : Type 0} ⦃e : Eq K⦄ (P : K × A → Type 0) (k : K) (m : List (K × A)) (d : A)
    → AllEntries P m
    → P (k, d)
    → P (k, Maps.get_or k m d)
unfolding Maps.get_or
AllEntries-get_or P k [] d h p = p
AllEntries-get_or ⦃e⦄ P k ((j, b) ∷ m) d h p =
    if_elim (λ a. P (k, a)) (j == k) (λ same. subst (λ i. P (i, b)) ((e.same_iff j k).0 same) h.0)
      (λ _. AllEntries-get_or P k m d h.1 p)

-- The data of one route of the mode of its key, between two terminals.
abbrev pub IsGoodEntry :
    {H Q : Type 0} → List (Text × H) → EdgeKey Text × List (EdgeData Q) → Type 0
IsGoodEntry {Q} terminals entry =
    ((x : EdgeData Q) × (entry.1 ≡ x ∷ []) × (x.mode ≡ entry.0.mode))
    × (entry.0.mode ≢ Mode.any)
    × (Maps.has entry.0.source terminals ≡ true)
    × (Maps.has entry.0.target terminals ≡ true)

module _ {H Q T : Type 0} where
  pub record IsSound (n : Network H Q T) : Type 0 where
    pub graph_well : WellFormed n.graph
    -- The vertices of the graph are the terminals.
    pub vertices : (v : Text) → Maps.has v n.graph.adjacency ≡ Maps.has v n.terminals
    pub entries : AllEntries (IsGoodEntry n.terminals) n.edge_data
    -- A name leads to a terminal, which lists it.
    pub named :
        (a c : Text)
        → Maps.lookup a n.aliases ≡ some c
        → (Maps.has c n.terminals ≡ true)
          × (Sets.contains a (Maps.get_or c n.canonical_to_aliases []) ≡ true)
    pub described : (v : Text) → Maps.has v n.terminal_data ≡ Maps.has v n.terminals

-- What the sets of a map hold once one of them is set.
pub contains-get_or-insert :
    (a k c : Text) (s : List Text) (m : List (Text × List Text))
    → Sets.contains a (Maps.get_or c (Maps.insert k s m) [])
      ≡ (if k == c then Sets.contains a s else Sets.contains a (Maps.get_or c m []))
contains-get_or-insert a k c s m =
    ap (Sets.contains a) (Maps.get_or-insert k c s [] m) ∙ through (k == c)
  where
    through :
        (b : Bool)
        → Sets.contains a (if b then s else Maps.get_or c m [])
          ≡ (if b then Sets.contains a s else Sets.contains a (Maps.get_or c m []))
    through true = refl
    through false = refl

pub contains-set_of :
    (a : Text) (names : List Text) → Sets.contains a (set_of names) ≡ Sets.contains a names
unfolding set_of Sets.contains
contains-set_of a [] = refl
contains-set_of a (name ∷ names) =
    Sets.contains-insert name a (set_of names) ∙ ap (λ b. name == a || b) (contains-set_of a names)

pub lookup-name_all :
    (a c : Text) (names : List Text) (m : List (Text × Text))
    → Maps.lookup a (name_all c names m)
      ≡ (if Sets.contains a names then some c else Maps.lookup a m)
unfolding name_all Sets.contains
lookup-name_all a c [] m = refl
lookup-name_all a c (name ∷ names) m =
    ground (arith, lookup-name_all a c names (Maps.insert name c m), Maps.lookup-insert name a c m)

pub lookup-forget_all :
    (a : Text) (names : List Text) (m : List (Text × Text))
    → Maps.lookup a (forget_all names m) ≡ (if Sets.contains a names then none else Maps.lookup a m)
unfolding forget_all Sets.contains
lookup-forget_all a [] m = refl
lookup-forget_all a (name ∷ names) m =
    ground (arith, lookup-forget_all a names (Maps.remove name m), Maps.lookup-remove name a m)

-- What is left of the data of the routes does not touch the terminal.
pub AllEntries-without_edges_of :
    {A : Type 0} (P : EdgeKey Text × A → Type 0) (c : Text) (m : List (EdgeKey Text × A))
    → AllEntries P m
    → AllEntries
        (λ entry. P entry × ((entry.0.source == c || entry.0.target == c) ≡ false))
        (without_edges_of c m)
unfolding without_edges_of
AllEntries-without_edges_of P c [] h = tt
AllEntries-without_edges_of P c (entry ∷ m) h =
    let rest = AllEntries-without_edges_of P c m h.1 in
    if_elim (AllEntries (λ entry. P entry × ((entry.0.source == c || entry.0.target == c) ≡ false)))
      (entry.0.source == c || entry.0.target == c) (λ _. rest) (λ apart. ((h.0, apart), rest))
