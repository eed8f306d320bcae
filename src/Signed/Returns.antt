-- ===== src/Signed/Returns.antt =====
-- src/signed_file.c: `signed_file_verify_stored` ends.
use mega65_expansion_board_i.Base.{
  ℕ, ◌+◌, ◌-◌, ◌≡◌, inl, inr, refl, Bool, some, List, ◌==◌, leb, length, arith, Bool-cases,
  Option-cases,
}
use mega65_expansion_board_i.Storage.{Storage, Reads}
use mega65_expansion_board_i.Signed.Block.{Crypto, IsSha, FileType, sig_block_size}
use mega65_expansion_board_i.Signed.Session.{Config}
use mega65_expansion_board_i.Signed.Stored.{verify_open, signed_file_verify_stored, Verdict}
use mega65_expansion_board_i.Signed.Package.{hash_loop-Hashes}

module _ {st : Storage} {k : Crypto} (rd : Reads st) (sh : IsSha k) where
  verify_open_returns :
      (cfg : Config) (path : List ℕ) (file_type : FileType) (require_signature : Bool) (f : st.File)
      (disk : st.Disk)
      → (r : Verdict st k) × (verify_open st k cfg path file_type require_signature f disk ≡ some r)
  unfolding verify_open
  verify_open_returns cfg path file_type require_signature f disk =
      elim (Bool-cases (leb (st.storage_size f disk) sig_block_size)) [
        | inl small ↦ simp (verify_open, small) (_, refl)
        | inr large ↦ elim (Option-cases k.sha_starts) [
          | inl stuck ↦ simp (verify_open, large, stuck) (_, refl)
          | inr (c, start) ↦
              elim (hash_loop-Hashes rd sh (st.storage_size f disk - sig_block_size + 1) f
                (st.storage_size f disk - sig_block_size) c disk (sh.absorbed c) (omega arith)
                refl) [
                  | inl (e, d, bad) ↦ simp (verify_open, large, start, bad) (_, refl)
                  | inr (c', d, loop, q, r, parts, len, abs, left) ↦
                      simp (verify_open, large, start, loop) (_, refl)
                ]
        ]
      ]

  -- `signed_file_verify_stored` returns on every card, whatever the file holds and whichever reads
  -- or hash operations fail.
  pub verify_stored_returns :
      (cfg : Config) (path : List ℕ) (file_type : FileType) (require_signature : Bool)
      (disk : st.Disk)
      → (r : Verdict st k) × (signed_file_verify_stored st k cfg path file_type require_signature
            disk
          ≡ some r)
  unfolding signed_file_verify_stored
  verify_stored_returns cfg path file_type require_signature disk =
      elim (Bool-cases (length path == 0)) [
        | inl no_path ↦ simp no_path (_, refl)
        | inr named ↦ elim (Option-cases (st.storage_open path disk).0) [
          | inl shut ↦ simp (signed_file_verify_stored, named, shut) (_, refl)
          | inr (f, opened) ↦
              let (r, run) =
                verify_open_returns cfg path file_type require_signature f
                  (st.storage_open path disk).1 in
              (r, simp (signed_file_verify_stored, named, opened) run)
        ]
      ]
