-- ===== src/SkipMap.antt =====
-- The ordered map of the crate crossbeam-skiplist, over the keys and values of this database: what
-- its documentation promises of `insert`, `iter` and `range`.
use easy_lsm.Base.{List, [], ◌∷◌, ◌≡◌, refl, ◌&&◌, if◌then◌else◌}
use easy_lsm.Key.{Key, key_le}
use easy_lsm.Value.{Value}
use easy_lsm.Entry.{Entry, insert_sorted}

-- The entries within `lo..=hi`.
abbrev pub within : Key → Key → List Entry → List Entry
within lo hi [] = []
within lo hi (e ∷ es) =
    if key_le lo e.0 && key_le e.0 hi then e ∷ within lo hi es else within lo hi es

pub record SkipMap : Type 1 where
  pub Map : Type 0
  pub empty : Map
  pub insert : Key → Value → Map → Map
  pub iter : Map → List Entry
  pub range : Key → Key → Map → List Entry
  pub iter-empty : iter empty ≡ []
  -- An entry of the same key is removed before the new one is put in.
  pub iter-insert :
      (key : Key) (value : Value) (m : Map)
      → iter (insert key value m) ≡ insert_sorted (key, value) (iter m)
  pub range-within : (lo hi : Key) (m : Map) → range lo hi m ≡ within lo hi (iter m)

-- A sorted list keeps these promises.
abbrev pub sorted_list : SkipMap
sorted_list = record {
  Map = List Entry;
  empty = [];
  insert = λ key value m. insert_sorted (key, value) m;
  iter = λ m. m;
  range = within;
  iter-empty = refl;
  iter-insert = λ key value m. refl;
  range-within = λ lo hi m. refl;
}
