-- ===== src/Write/Family.antt =====
-- Families indexed by writer, changed at one index.
use easy_lsm.Base.{ℕ, ◌==◌, if◌then◌else◌}

abbrev pub update {ℓ} : {A : Type ℓ} → (ℕ → A) → ℕ → A → ℕ → A
update f i a j = if i == j then a else f j
