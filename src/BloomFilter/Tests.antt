-- ===== src/BloomFilter/Tests.antt =====
-- bloom_filter.rs: a filter of 100 bits in two words, with three probes a key.
use easy_lsm.Base.{ℕ, ◌+◌, ◌≡◌, true, refl, [], ◌∷◌, arith}
use mathlib.Core.List.{Memᴰ}
use easy_lsm.Codec.{Bytes}
use easy_lsm.BloomFilter.{new, check}
use easy_lsm.BloomFilter.Members.{IsSized, insert_all, check-insert_all}

abbrev hashes : ℕ × ℕ → Bytes → ℕ
hashes (h, k) [] = h
hashes (h, k) (b ∷ bs) = b + k

new-IsSized : IsSized (new 100 3)
unfolding new
new-IsSized = record { some_bit = omega arith; room = omega arith }

check-insert_all_example :
    check hashes (98 ∷ []) (insert_all hashes ((97 ∷ []) ∷ (98 ∷ []) ∷ []) (new 100 3)) ≡ true
check-insert_all_example =
    check-insert_all hashes ((97 ∷ []) ∷ (98 ∷ []) ∷ []) (98 ∷ []) (new 100 3) new-IsSized
      (Memᴰ.tail (Memᴰ.head refl))
