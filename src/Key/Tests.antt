-- ===== src/Key/Tests.antt =====
-- key.rs at a short key, in front of two more bytes.
use easy_lsm.Base.{◌≡◌, ◌++◌, arith, [], ◌∷◌}
use easy_lsm.Error.{ok}
use easy_lsm.Key.{Key, loggable}
use easy_lsm.Key.Wrap.{decode-encode}

abbrev key : Key
key = record { lsn = 6; bytes = 98 ∷ 99 ∷ [] }

decode-encode_example :
    loggable.decode (loggable.encode key ++ (1 ∷ 2 ∷ []))
    ≡ ok (record { lsn = 6; bytes = 98 ∷ 99 ∷ [] }, 1 ∷ 2 ∷ [])
decode-encode_example = decode-encode key (1 ∷ 2 ∷ []) (omega arith)
