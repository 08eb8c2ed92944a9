-- ===== src/Manifest/Tests.antt =====
-- manifest.rs: an update of a new manifest.
use easy_lsm.Base.{ℕ, zero, suc, ◌+◌, ◌≡◌, refl, arith, [], ◌∷◌, ◌++◌}
use easy_lsm.Error.{Result, ok}
use easy_lsm.Codec.{uint, vec, to_le_bytes}
use easy_lsm.Codec.Reads.{Reads}
use easy_lsm.Directory
use easy_lsm.Directory.{Directory, mf_tmp}
use easy_lsm.Wal.Tests.{sum32, sum32-lt}
use easy_lsm.Manifest.{
  Manifest, Meanwhile, KeepStaged, new, Fits, loggable, apply_atomic_update, attempts, try_open,
  encode_body,
}
use easy_lsm.Manifest.RoundTrip.{manifest-ReadsBack, stored}
use easy_lsm.Manifest.Update.{update_commits, update_installs_other, reopened}

abbrev push_wal : Manifest → Directory → Result (Manifest × Directory)
push_wal m d = ok (record m { wals = m.wals ++ (7 ∷ []) }, d)

-- At the first attempt, another thread stages and commits the version 1.
abbrev rival_manifest : ℕ → Manifest → Manifest
rival_manifest zero m = m
rival_manifest (suc zero) m = m
rival_manifest (suc (suc k)) m = record m { version = m.version + 1 }

abbrev rival_files : ℕ → Directory → Directory
rival_files zero d = d
rival_files (suc zero) d = d
rival_files (suc (suc k)) d = Directory.put (mf_tmp 1) [] d

abbrev rival : Meanwhile
rival = record { manifest = rival_manifest; files = rival_files }

rival-KeepStaged : KeepStaged rival
rival-KeepStaged zero v m d h = refl
rival-KeepStaged (suc zero) v m d h = refl
rival-KeepStaged (suc (suc k)) v m d h = absurd (omega (arith, h))

abbrev pushed : Manifest
pushed = record {
  wals = 3 ∷ 7 ∷ [];
  levels = [];
  next_wal_id = 4;
  next_sstable_id = 0;
  version = 1;
}

pushed-Fits : Fits pushed
unfolding encode_body vec uint to_le_bytes
pushed-Fits = record {
  wal_ids = (omega arith, (omega arith, tt));
  wal_count = omega arith;
  level_count = omega arith;
  level_sizes = tt;
  body_size = omega arith;
}

manifest-ReadsBack_example :
    Reads (loggable sum32).decode ((loggable sum32).encode pushed) (stored pushed)
manifest-ReadsBack_example =
    manifest-ReadsBack sum32 pushed pushed-Fits (sum32-lt (encode_body pushed))

abbrev pushed_again : Manifest
pushed_again = record pushed { version = 2 }

pushed_again-Fits : Fits pushed_again
unfolding encode_body vec uint to_le_bytes
pushed_again-Fits = record {
  wal_ids = (omega arith, (omega arith, tt));
  wal_count = omega arith;
  level_count = omega arith;
  level_sizes = tt;
  body_size = omega arith;
}

-- The second attempt commits.
update_commits_example :
    ((apply_atomic_update sum32 push_wal rival (new 3) []).1 ≡ pushed_again)
    × (try_open sum32 2 (apply_atomic_update sum32 push_wal rival (new 3) []).2
        ≡ ok (reopened sum32 pushed_again))
unfolding apply_atomic_update attempts new Directory.read Directory.put Directory.remove
update_commits_example =
    update_commits sum32 push_wal rival (new 3) [] pushed_again rival-KeepStaged pushed_again-Fits
      (sum32-lt (encode_body pushed_again)) refl

-- Another thread has found the version 0 too, and lists the log 8.
abbrev theirs : Manifest
theirs = record pushed { wals = 3 ∷ 8 ∷ [] }

theirs-Fits : Fits theirs
unfolding encode_body vec uint to_le_bytes
theirs-Fits = record {
  wal_ids = (omega arith, (omega arith, tt));
  wal_count = omega arith;
  level_count = omega arith;
  level_sizes = tt;
  body_size = omega arith;
}

abbrev collide : Meanwhile
collide = record {
  manifest = λ k m. m;
  files = λ k d. Directory.put (mf_tmp 1) ((loggable sum32).encode theirs) d;
}

update_installs_other_example :
    ((apply_atomic_update sum32 push_wal collide (new 3) []).0 ≡ ok pushed)
    × ((apply_atomic_update sum32 push_wal collide (new 3) []).1 ≡ pushed)
    × (try_open sum32 1 (apply_atomic_update sum32 push_wal collide (new 3) []).2
        ≡ ok (reopened sum32 theirs))
unfolding new
update_installs_other_example =
    update_installs_other sum32 push_wal collide (new 3)
      (record (new 3) { wals = (new 3).wals ++ (7 ∷ []) }) theirs [] [] refl refl refl
      (λ d. Directory.read-put (mf_tmp 1) ((loggable sum32).encode theirs) d) theirs-Fits
      (sum32-lt (encode_body theirs))
