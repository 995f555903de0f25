-- ===== src/Publish/Volatile.antt =====
-- A disk with a volatile cache: what a power failure may leave of the files that the calls of
-- src/lib.rs work on.
use o_llm.Common.{ℕ, ◌≡◌, ◌≢◌, ◌⊎◌, true, false, Option, List, is_ok}
use o_llm.Common.Text.{Text}
use o_llm.Publish.{Disk}

-- What a disk promises: `left w n c` is that a power failure in `w` may leave `c` under the name
-- `n`, and `bytes w n c` that it may leave `c` as the data of the file that has this name in `w`.
-- The data of a file is its content once the file is synced; a rename that succeeds leaves the
-- new name with the file that it had, or with the data of the renamed one; and no other call puts
-- anything more at risk.
pub record IsDurable {W : Type 0} (disk : Disk W) (content : Text → W → Option (List ℕ))
    (left bytes : W → Text → Option (List ℕ) → Type 0) : Type 0 where
  pub sync_all-bytes :
      (n : Text) (w : W) (c : Option (List ℕ))
      → is_ok (disk.sync_all n w).0 ≡ true
      → bytes (disk.sync_all n w).1 n c
      → c ≡ content n w
  pub rename-left :
      (a b : Text) (w : W) (c : Option (List ℕ))
      → left (disk.rename a b w).1 b c
      → left w b c ⊎ bytes w a c
  pub rename-failed :
      (a b m : Text) (w : W) (c : Option (List ℕ))
      → is_ok (disk.rename a b w).0 ≡ false
      → left (disk.rename a b w).1 m c
      → left w m c
  pub rename-other :
      (a b m : Text) (w : W) (c : Option (List ℕ))
      → m ≢ a
      → m ≢ b
      → left (disk.rename a b w).1 m c
      → left w m c
  pub sync_all-left :
      (n m : Text) (w : W) (c : Option (List ℕ)) → left (disk.sync_all n w).1 m c → left w m c
  pub open_file-left :
      (n m : Text) (w : W) (c : Option (List ℕ)) → left (disk.open_file n w).1 m c → left w m c
  pub open_write-left :
      (n m : Text) (w : W) (c : Option (List ℕ)) → left (disk.open_write n w).1 m c → left w m c
  pub set_times-left :
      (n m : Text) (w : W) (c : Option (List ℕ)) → left (disk.set_times n w) m c → left w m c
  pub sync_dir-left :
      (m : Text) (w : W) (c : Option (List ℕ)) → left (disk.sync_dir w) m c → left w m c
