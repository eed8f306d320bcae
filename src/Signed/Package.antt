-- ===== src/Signed/Package.antt =====
-- src/signed_file.c: what `signed_file_verify_stored` has verified when it returns true.
use mega65_expansion_board_i.Base.{
  ℕ, zero, suc, ◌+◌, ◌-◌, ◌<◌, ◌≤◌, ◌≡◌, ◌⊎◌, inl, inr, refl, sym, ap, ◌∙◌, Bool, true, false, ◌&&◌,
  Option, some, List, [], ◌++◌, ◌==◌, leb, ltb, if◌then◌else◌, take, drop, length, length-append,
  take-append-drop, take-all, append_assoc, append-nil, arith, Bool-cases, Option-cases, ==_iff,
  and_true,
}
use mega65_expansion_board_i.Base.Text.{bytes_eq}
use mega65_expansion_board_i.Storage.{Storage, Reads}
use mega65_expansion_board_i.Signed.Block.{
  Crypto, IsSha, Error, FileType, sig_magic, sig_block_size, verify_block, invalid_parameters,
  open_failed, file_too_short, sha_start_failed,
}
use mega65_expansion_board_i.Signed.Session.{Config}
use mega65_expansion_board_i.Signed.Verify.{Vouches, verify_block-Vouches}
use mega65_expansion_board_i.Signed.Stored.{
  hash_loop, verdict_on, read_block, verify_open, signed_file_verify_stored, Verdict,
}

want_bounds :
    (left : ℕ)
    → (left == 0) ≡ false
    → (0 < (if ltb 1024 left then 1024 else left)) × ((if ltb 1024 left then 1024 else left) ≤ left)
want_bounds left h = ground arith

refused :
    {D : Type 0} {e : Error} {d : D} {r : Bool × Error × D}
    → some (false, e, d) ≡ some r
    → r.0 ≡ true
    → ⊥
refused {r} run ok = let same : r.0 ≡ false = cc in cc

accepted : {D : Type 0} {v r : Bool × Error × D} → some v ≡ some r → r.0 ≡ true → v.0 ≡ true
accepted {v} {r} run ok = let same : v ≡ r = cc in ap (λ o. o.0) same ∙ ok

pub above_block : (n : ℕ) → leb n 256 ≡ false → 256 < n
above_block n h = ground arith

module _ {st : Storage} {k : Crypto} (rd : Reads st) (sh : IsSha k) where
  -- Every byte of the loop is read and hashed, or the loop ends with an error.
  abbrev pub Hashes : st.File → ℕ → List ℕ → List ℕ → Option ((Error ⊎ k.Ctx) × st.Disk) → Type 0
  Hashes f left p bytes o =
      ((e : Error) × (d : st.Disk) × (o ≡ some (inl e, d)))
      ⊎ ((c : k.Ctx) × (d : st.Disk) × (o ≡ some (inr c, d))
          × (q : List ℕ) × (r : List ℕ) × (q ++ r ≡ bytes)
          × (length q ≡ left)
          × (sh.absorbed c ≡ p ++ q)
          × (rd.unread f d ≡ r))

  one_round :
      (f : st.File) (left want : ℕ) (p buf bytes : List ℕ) (d' : st.Disk)
      (o : Option ((Error ⊎ k.Ctx) × st.Disk))
      → buf ≡ take want bytes
      → rd.unread f d' ≡ drop want bytes
      → length buf ≡ want
      → want ≤ left
      → Hashes f (left - want) (p ++ buf) (rd.unread f d') o
      → Hashes f left p bytes o
  one_round f left want p buf bytes d' o gives keeps size le h = elim h [
    | inl bad ↦ inl bad
    | inr (c, d, run, q, r, parts, len, abs, rest) ↦
        let whole : (buf ++ q) ++ r ≡ bytes =
          append_assoc buf q r
          ∙ ap (λ w. buf ++ w) (parts ∙ keeps)
          ∙ ap (λ w. w ++ drop want bytes) gives
          ∙ take-append-drop want bytes in
        let sum = length-append buf q in
        inr (c, d, run, buf ++ q, r, whole, omega arith, abs ∙ append_assoc p buf q, rest)
  ]

  pub hash_loop-Hashes :
      (fuel : ℕ) (f : st.File) (left : ℕ) (c : k.Ctx) (disk : st.Disk) (p : List ℕ)
      → left < fuel
      → sh.absorbed c ≡ p
      → Hashes f left p (rd.unread f disk) (hash_loop st k fuel f left c disk)
  unfolding hash_loop
  hash_loop-Hashes zero f left c disk p enough abs = absurd (omega arith)
  hash_loop-Hashes (suc fuel) f left c disk p enough abs = elim (Bool-cases (left == 0)) [
    | inl done ↦
        let e : left ≡ 0 = (==_iff left 0).0 done in
        simp (hash_loop, done)
          (inr (c, disk, refl, [], rd.unread f disk, refl, sym e, abs ∙ sym (append-nil p), refl))
    | inr more ↦
        let want : ℕ = if ltb 1024 left then 1024 else left in
        let (pos, le) = want_bounds left more in
        elim (Bool-cases
          ((st.storage_read f want disk).0 && length (st.storage_read f want disk).1 == want)) [
            | inr short ↦ simp (hash_loop, more, short) (inl (_, _, refl))
            | inl full ↦
                let (ok, whole) = and_true _ _ full in
                let size = (==_iff (length (st.storage_read f want disk).1) want).0 whole in
                let buf : List ℕ = (st.storage_read f want disk).1 in
                elim (Option-cases (k.sha_update c (st.storage_read f want disk).1)) [
                  | inl stuck ↦ simp (hash_loop, more, full, stuck) (inl (_, _, refl))
                  | inr (c', next) ↦
                      let ih =
                        hash_loop-Hashes fuel f (left - want) c' (st.storage_read f want disk).2
                          (p ++ (st.storage_read f want disk).1) (omega arith)
                          (sh.update-eq c c' _ next
                            ∙ ap (λ q. q ++ (st.storage_read f want disk).1) abs) in
                      simp (hash_loop, more, full, next)
                        (one_round f left want p buf (rd.unread f disk) _ _
                          (rd.read-gives f want disk ok) (rd.unread-read f want disk ok) size le ih)
                ]
          ]
  ]

  verdict-Vouches :
      (cfg : Config) (path : List ℕ) (file_type : FileType) (len : ℕ) (hash block : List ℕ)
      → (verdict_on st k cfg path file_type true len hash block).0 ≡ true
      → Vouches k cfg.trusted_keys file_type path len hash block
  unfolding verdict_on
  verdict-Vouches cfg path file_type len hash block ok =
      elim (Bool-cases (bytes_eq (take 32 block) sig_magic)) [
        | inr none' ↦ let no : false ≡ true = simp none' at ok in cc
        | inl magic ↦
            elim (Option-cases (verify_block k cfg.trusted_keys file_type path len hash block)) [
              | inl good ↦
                  verify_block-Vouches k cfg.trusted_keys file_type path len hash block good
              | inr (e, bad) ↦ let no : false ≡ true = simp (verdict_on, magic, bad) at ok in cc
            ]
      ]

  -- a package on the card: the payload and a block that vouches for its hash
  pub record Package (cfg : Config) (path : List ℕ) (file_type : FileType) (bytes : List ℕ)
      : Type 0 where
    pub payload : List ℕ
    pub block : List ℕ
    pub parts : payload ++ block ≡ bytes
    pub block_length : length block ≡ 256
    pub vouches : Vouches k cfg.trusted_keys file_type path (length payload) (sh.hash payload) block

  read_block-Package :
      (cfg : Config) (path : List ℕ) (file_type : FileType) (f : st.File) (q r bytes : List ℕ)
      (c : k.Ctx) (disk : st.Disk)
      → q ++ r ≡ bytes
      → length bytes ≡ length q + 256
      → sh.absorbed c ≡ q
      → rd.unread f disk ≡ r
      → (read_block st k cfg path file_type true f (length q) (inr c) disk).0 ≡ true
      → Package cfg path file_type bytes
  unfolding read_block
  read_block-Package cfg path file_type f q r bytes c disk parts total abs rest ok =
      elim (Bool-cases (
        (st.storage_read f sig_block_size disk).0
        && length (st.storage_read f sig_block_size disk).1 == sig_block_size)) [
          | inr short ↦ let no : false ≡ true = simp (read_block, short) at ok in cc
          | inl full ↦ elim (Option-cases (k.sha_finish c)) [
            | inl stuck ↦ let no : false ≡ true = simp (read_block, full, stuck) at ok in cc
            | inr (hash, digest) ↦
                let (fine, whole) = and_true (st.storage_read f sig_block_size disk).0 _ full in
                let gives = rd.read-gives f sig_block_size disk fine in
                let sum = length-append q r in
                let len : length r ≡ 256 = let e = ap length parts in omega arith in
                let same : (st.storage_read f sig_block_size disk).1 ≡ r =
                  gives ∙ ap (take 256) rest ∙ take-all 256 r (omega arith) in
                let is_hash : hash ≡ sh.hash q = sh.finish-eq c hash digest ∙ ap sh.hash abs in
                let ok' = simp (read_block, full, digest) at ok in
                record {
                  payload = q;
                  block = r;
                  parts = parts;
                  block_length = len;
                  vouches =
                      verdict-Vouches cfg path file_type (length q) (sh.hash q) r
                        (rw (← is_hash, ← same) ok');
                }
          ]
        ]

  verify_open-Package :
      (cfg : Config) (path : List ℕ) (file_type : FileType) (f : st.File) (disk : st.Disk)
      (r : Verdict st k)
      → st.storage_size f disk ≡ length (rd.unread f disk)
      → verify_open st k cfg path file_type true f disk ≡ some r
      → r.0 ≡ true
      → Package cfg path file_type (rd.unread f disk)
  unfolding verify_open read_block
  verify_open-Package cfg path file_type f disk r size run ok =
      elim (Bool-cases (leb (st.storage_size f disk) sig_block_size)) [
        | inl small ↦
            let no : some (false, file_too_short, st.storage_close f disk) ≡ some r =
              simp (verify_open, small) at run in
            absurd (refused no ok)
        | inr large ↦ elim (Option-cases k.sha_starts) [
          | inl stuck ↦
              let no : some (false, sha_start_failed, st.storage_close f disk) ≡ some r =
                simp (verify_open, large, stuck) at run in
              absurd (refused no ok)
          | inr (c, start) ↦
              let above = above_block (st.storage_size f disk) large in
              elim (hash_loop-Hashes (st.storage_size f disk - sig_block_size + 1) f
                (st.storage_size f disk - sig_block_size) c disk [] (omega arith)
                (sh.starts-eq c start)) [
                  | inl (e, d, bad) ↦
                      let no : some (false, e, st.storage_close f d) ≡ some r =
                        simp (verify_open, large, start, bad) at run in
                      absurd (refused no ok)
                  | inr (c', d, loop, q, rest, parts, len, abs, left) ↦
                      let end : some (
                            read_block st k cfg path file_type true f
                              (st.storage_size f disk - sig_block_size) (inr c') d)
                          ≡ some r =
                        simp (verify_open, large, start, loop) at run in
                      let end' : (read_block st k cfg path file_type true f (length q) (inr c') d).0
                          ≡ true =
                        ap (λ n. (read_block st k cfg path file_type true f n (inr c') d).0) len
                        ∙ accepted end ok in
                      read_block-Package cfg path file_type f q rest (rd.unread f disk) c' d parts
                        (omega arith) abs left end'
                ]
        ]
      ]

  -- `signed_file_verify_stored`, asked to require a signature, returns true only for a file that
  -- could be opened and whose bytes are a payload and a 256-byte block that vouches for the hash of
  -- that payload, under the configured keys, the file's type and its path.
  pub signed_file_verify_stored-Package :
      (cfg : Config) (path : List ℕ) (file_type : FileType) (disk : st.Disk) (r : Verdict st k)
      → signed_file_verify_stored st k cfg path file_type true disk ≡ some r
      → r.0 ≡ true
      → (f : st.File) × ((st.storage_open path disk).0 ≡ some f)
        × Package cfg path file_type (rd.unread f (st.storage_open path disk).1)
  unfolding signed_file_verify_stored
  signed_file_verify_stored-Package cfg path file_type disk r run ok =
      elim (Bool-cases (length path == 0)) [
        | inl no_path ↦
            let no : some (false, invalid_parameters, disk) ≡ some r = simp no_path at run in
            absurd (refused no ok)
        | inr named ↦ elim (Option-cases (st.storage_open path disk).0) [
          | inl shut ↦
              let no : some (false, open_failed, (st.storage_open path disk).1) ≡ some r =
                simp (signed_file_verify_stored, named, shut) at run in
              absurd (refused no ok)
          | inr (f, opened) ↦
              let run' : verify_open st k cfg path file_type true f (st.storage_open path disk).1
                  ≡ some r =
                simp (signed_file_verify_stored, named, opened) at run in
              (
                f,
                opened,
                verify_open-Package cfg path file_type f (st.storage_open path disk).1 r
                    (rd.size-open path disk (st.storage_open path disk).1 f
                      (ap (λ o. (o, (st.storage_open path disk).1)) opened))
                    run' ok,
              )
        ]
      ]
