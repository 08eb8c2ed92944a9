-- ===== src/Compact/Select.antt =====
-- compact.rs, the selection phases of `compact_l0` and `compact_ln`, and the triggers of `run`.
pub mod Complete
use easy_lsm.Base.{
  ℕ, zero, suc, ◌+◌, ◌*◌, ◌^◌, List, [], ◌∷◌, length, Bool, true, false, ltb, leb, ◌&&◌, ◌||◌,
  if◌then◌else◌, Option, none, some, ◌≡◌, refl, sym, ap, ◌∙◌, subst, Bool-cases, inl, inr, ◌⊎◌,
  arith, All,
}
use mathlib.Core.List.{Memᴰ}
use mathlib.Core.List.Memᴰ.{head, tail}
use easy_lsm.Key.{Key, key_le, key_lt}
use easy_lsm.Key.Order.{
  key_le_self, lt_of_not-key_le, key_le_of_not-lt, key_le_of_lt, key_lt-trans_le, key_le-trans_lt,
  key_le_trans,
}
use easy_lsm.Manifest.{FileMetadata, Level, Manifest}

-- The files that are merged, of the level and of the next one.
pub record Selection : Type 0 where
  pub source : List FileMetadata
  pub target : List FileMetadata

-- `iter().map(|f| &f.min_key).min()` of a list that is not empty, and `max` of the largest keys.
unfoldable pub min_key : FileMetadata → List FileMetadata → Key
min_key f [] = f.min_key
min_key f (g ∷ gs) = let m = min_key g gs in if key_le f.min_key m then f.min_key else m

unfoldable pub max_key : FileMetadata → List FileMetadata → Key
max_key f [] = f.max_key
max_key f (g ∷ gs) = let m = max_key g gs in if key_lt m f.max_key then f.max_key else m

-- The files whose range meets `lo..=hi`.
unfoldable pub overlapping : Key → Key → List FileMetadata → List FileMetadata
overlapping lo hi [] = []
overlapping lo hi (f ∷ fs) =
    let rest = overlapping lo hi fs in
    if key_le lo f.max_key && key_le f.min_key hi then f ∷ rest else rest

-- The files of a level; none where there is no such level.
unfoldable pub files_at : ℕ → List Level → List FileMetadata
files_at n [] = []
files_at zero (l ∷ ls) = l.files
files_at (suc n) (l ∷ ls) = files_at n ls

-- `compact_l0`: all files of the first level. `none`: nothing to do.
unfoldable pub select_l0 : Manifest → Option Selection
unfolding files_at min_key max_key overlapping
select_l0 m = elim (files_at 0 m.levels) [
  | [] ↦ none
  | f ∷ fs ↦ some (record {
    source = f ∷ fs;
    target = overlapping (min_key f fs) (max_key f fs) (files_at 1 m.levels);
  })
]

-- `compact_ln`: the first file of the level.
unfoldable pub select_ln : ℕ → Manifest → Option Selection
unfolding files_at overlapping
select_ln level_idx m = elim (files_at level_idx m.levels) [
  | [] ↦ none
  | f ∷ fs ↦ some (record {
    source = f ∷ [];
    target = overlapping f.min_key f.max_key (files_at (level_idx + 1) m.levels);
  })
]

-- The work that a round of `run` finds.
pub data Work : Type 0 where
  flush_work : Work
  l0_work : Work
  ln_work : ℕ → Work
  wait : Work

abbrev pub l0_size_trigger : ℕ
l0_size_trigger = 128 * 1024 * 1024

abbrev pub max_levels : ℕ
max_levels = 4

unfoldable pub size_of : List FileMetadata → ℕ
size_of [] = 0
size_of (f ∷ fs) = f.file_size + size_of fs

-- The `for` loop over the levels from `level` on, with `n` rounds left.
unfoldable pub triggered_level : ℕ → ℕ → List Level → Option ℕ
unfolding size_of files_at
triggered_level zero level ls = none
triggered_level (suc n) level ls =
    let rest = triggered_level n (level + 1) ls in
    if leb (length ls) level
    then none
    else if leb (l0_size_trigger * 10 ^ level) (size_of (files_at level ls))
    then some level
    else rest

unfoldable pub work : Manifest → Work
unfolding size_of files_at triggered_level
work m =
    if ltb 4 (length m.wals)
    then flush_work
    else if leb l0_size_trigger (size_of (files_at 0 m.levels))
    then l0_work
    else elim (triggered_level 3 1 m.levels) [ some level ↦ ln_work level | none ↦ wait ]
