-- ===== src/Storage/Append.antt =====
-- src/storage/filesystem.rs, `write_upload_chunk`: chunks that follow one another.
use distribution_rs.Prelude.{
  ℕ, zero, suc, ◌+◌, ◌-◌, ◌%◌, ◌^◌, ◌≤◌, some, [], ◌∷◌, ◌++◌, ◌≡◌, refl, ap, ◌∙◌, arith, ok, length,
  take, drop, length-append,
}
use mathlib.Core.List.{append-nil}
use distribution_rs.Prelude.Text.{Text}
use distribution_rs.Exec.Ensures.{Ensures-bind, Ensures-map_err, Ensures-Keeps, Ensures-pure}
use distribution_rs.Storage.Blobs.{Ensures-copy}
use distribution_rs.Storage.Files.{Bytes, Reader, Fs, read, write_at}
use distribution_rs.Storage.Filesystem.{write_upload_chunk}
use distribution_rs.Storage.Frame.{Holds, call_rules}
use distribution_rs.Storage.Paths.{upload_path}

take-length : (b : Bytes) → take (length b) b ≡ b
take-length [] = refl
take-length (x ∷ b) = ap (◌∷◌ x) (take-length b)

drop-past : (n : ℕ) (b : Bytes) → length b ≤ n → drop n b ≡ []
drop-past zero [] h = refl
drop-past zero (x ∷ b) h = absurd (omega arith)
drop-past (suc n) [] h = refl
drop-past (suc n) (x ∷ b) h = drop-past n b (omega arith)

-- A write at the end appends.
pub write_at-length : (b d : Bytes) → write_at (length b) d b ≡ b ++ d
unfolding write_at
write_at-length b d =
    let gap : length b - length b ≡ 0 = omega arith in
    rw (take-length b, gap, drop-past (length b + length d) b (omega arith), append-nil d)

-- If the upload's file holds `b` and a chunk at the offset `length b` returns, then all that the
-- reader delivers was appended to the file, and the next offset is its new length, as a `u64`.
pub write_upload_chunk-append :
    (id : Text) (r : Reader) (b : Bytes) (s : Fs) (n : ℕ)
    → read (upload_path id) s.files ≡ some b
    → (write_upload_chunk id r (length b) s).0 ≡ ok n
    → (read (upload_path id) (write_upload_chunk id r (length b) s).1.files ≡ some (b ++ r.bytes))
      × (n ≡ length (b ++ r.bytes) % 2 ^ 64)
unfolding write_upload_chunk
write_upload_chunk-append id r b s n h e =
    let (after, next) =
      (Ensures-bind
          {R = λ n s'.
            Holds (upload_path id) (some (b ++ r.bytes)) s' × (n ≡ length (b ++ r.bytes) % 2 ^ 64)}
          (Ensures-Keeps (search call_rules))
          λ _. Ensures-bind (Ensures-Keeps (search call_rules)) λ _.
            Ensures-bind (Ensures-map_err _ (Ensures-copy (upload_path id) (some b) (length b) r))
              λ k. Ensures-pure _ λ s' x. (
                record { content = x.0.content ∙ ap some (write_at-length b r.bytes) },
                rw (x.2, length-append),
              )).at
        s (record { content = h }) n e in
    (after.content, next)
