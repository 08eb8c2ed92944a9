-- ===== src/Entry.antt =====
-- Key-value pairs, shared by the log, the memtables and the tables on disk: their order, and the
-- newest version of a key in a sorted run.
pub mod Newest
use easy_lsm.Base.{
  ℕ, ◌<◌, ◌^◌, List, [], ◌∷◌, ◌≡◌, Ordering, All, Bool, Option, none, some, if◌then◌else◌, ltb,
}
use easy_lsm.Codec.{Bytes}
use easy_lsm.Key
use easy_lsm.Key.{Key, cmp, eq_bytes}
use easy_lsm.Value
use easy_lsm.Value.{Value}

abbrev pub Entry : Type 0
Entry = Key × Value

abbrev pub Fits : Entry → Type 0
Fits (key, value) = Key.Fits key × Value.Fits value

-- Strictly ascending in the order of keys.
abbrev pub IsSorted : List Entry → Type 0
IsSorted [] = Unit {0}
IsSorted (e ∷ es) = All (λ (f : Entry). cmp e.0 f.0 ≡ Ordering.lt) es × IsSorted es

-- The first entry of a key's bytes: in a sorted run, that of the highest LSN.
abbrev pub first_of : Bytes → List Entry → Option Entry
first_of k [] = none
first_of k (e ∷ es) = if eq_bytes e.0.bytes k then some e else first_of k es

-- The later write wins a tie.
abbrev pub newer : Entry → Option Entry → Option Entry
newer e none = some e
newer e (some f) = if ltb e.0.lsn f.0.lsn then some f else some e

-- The newest version of a key after the writes, from what was there before; oldest write first.
abbrev pub newest : Bytes → Option Entry → List Entry → Option Entry
newest k before [] = before
newest k before (e ∷ es) = newest k (if eq_bytes e.0.bytes k then newer e before else before) es

-- A write into a sorted run: an entry of the same key is replaced.
abbrev pub insert_sorted : Entry → List Entry → List Entry
insert_sorted e [] = e ∷ []
insert_sorted e (f ∷ fs) = elim (cmp e.0 f.0) [
  | Ordering.lt ↦ e ∷ f ∷ fs
  | Ordering.eq ↦ e ∷ fs
  | Ordering.gt ↦ f ∷ insert_sorted e fs
]
