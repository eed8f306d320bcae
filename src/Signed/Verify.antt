-- ===== src/Signed/Verify.antt =====
-- src/signed_file.c: what `verify_block` accepts.
use mega65_expansion_board_i.Base.{
  ℕ, zero, suc, ◌<◌, ◌≡◌, ◌↔◌, ◌⊎◌, refl, Bool, true, false, not, ◌&&◌, ◌||◌, Option, none, some,
  List, [], ◌∷◌, ◌==◌, if◌then◌else◌, get_or, slice, take, length, arith, min, ==_iff,
}
use mega65_expansion_board_i.Base.Text.{bytes_eq_iff, cstr}
use mega65_expansion_board_i.Signed.Keys.{SomeKey, here, there, Accepts, any_key_accepts_iff}
use mega65_expansion_board_i.Signed.Block.{
  Key, FileType, type_code, Crypto, sig_magic, sig_block_size, le16, le32, sha256_once, name_error,
  basename, verify_block, bounded_cstr_len, Error, last_checks, no_trusted_keys, magic_missing,
  bad_version, length_mismatch, type_mismatch, bad_algorithm, hash_mismatch,
}

-- The filename field is blank, or ends within the field and is the destination's basename.
abbrev pub Names : List ℕ → List ℕ → Type 0
Names field name = (get_or field 0 0 ≡ 0) ⊎ ((cstr field ≡ name) × (length (cstr field) < 96))

-- What a verified block says, and who signed it.
pub record Vouches (k : Crypto) (keys : List Key) (expected : FileType) (path : List ℕ) (len : ℕ)
    (hash block : List ℕ) : Type 0 where
  pub magic : take 32 block ≡ sig_magic
  pub version : le16 block 32 ≡ 1
  pub header_len : le16 block 34 ≡ sig_block_size
  pub payload_len : le32 block 40 ≡ len
  pub file_type :
      (get_or block 44 0 ≡ 0)
      ⊎ ((type_code expected ≡ 0) ⊎ (get_or block 44 0 ≡ type_code expected))
  pub hash_alg : get_or block 46 0 ≡ 1
  pub sig_alg : get_or block 47 0 ≡ 1
  pub payload_hash : slice 64 32 block ≡ hash
  pub filename : Names (slice 96 96 block) (basename path)
  pub digest : List ℕ
  pub digest_of_metadata : sha256_once k (take 192 block) ≡ some digest
  pub signed : SomeKey (Accepts k (slice 48 16 block) digest (slice 192 64 block)) keys

bounded_cstr_len-min : (s : List ℕ) (n : ℕ) → bounded_cstr_len s n ≡ min (length (cstr s)) n
unfolding bounded_cstr_len cstr
bounded_cstr_len-min s zero = omega arith
bounded_cstr_len-min [] (suc n) = omega arith
bounded_cstr_len-min (x ∷ s) (suc n) = ground (arith, bounded_cstr_len-min s n)

name_error-Names : (field name : List ℕ) → (name_error field name ≡ none) ↔ Names field name
unfolding name_error
name_error-Names field name = (
  λ e. ground (arith, bounded_cstr_len-min field 96, bytes_eq_iff (cstr field) name),
  λ h. ground (arith, bounded_cstr_len-min field 96, bytes_eq_iff (cstr field) name),
)

-- one rung of the ladder: its test failed, and the rest gives the answer
passed :
    (b : Bool) (e : Error) (rest : Option Error)
    → (if b then some e else rest) ≡ none
    → (b ≡ false) × (rest ≡ none)
passed true e rest h = cc
passed false e rest h = (refl, h)

rung :
    (b : Bool) (e : Error) (rest : Option Error)
    → b ≡ false
    → rest ≡ none
    → (if b then some e else rest) ≡ none
rung b e rest p h = rw p h

suc_is_positive : (n : ℕ) → (suc n == 0) ≡ false
suc_is_positive n = ground arith

SomeKey-length : {P : Key → Type 0} {keys : List Key} → SomeKey P keys → (length keys == 0) ≡ false
SomeKey-length (here {keys = ks} h) = suc_is_positive (length ks)
SomeKey-length (there {keys = ks} h) = suc_is_positive (length ks)

to_not : {b : Bool} → b ≡ true → not b ≡ false
to_not {b} h = ground arith

both_fine : (a a' b b' : ℕ) → a ≡ a' → b ≡ b' → (not (a == a') || not (b == b')) ≡ false
both_fine a a' b b' p q = ground arith

types_fine :
    (t e : ℕ)
    → (t ≡ 0) ⊎ ((e ≡ 0) ⊎ (t ≡ e))
    → (not (t == 0) && (not (e == 0) && not (t == e))) ≡ false
types_fine t e h = ground arith

last_checks_fine :
    (named : Option Error) (digest : Option (List ℕ)) (signed : List ℕ → Bool) (d : List ℕ)
    → named ≡ none
    → digest ≡ some d
    → signed d ≡ true
    → last_checks named digest signed ≡ none
unfolding last_checks
last_checks_fine named digest signed d p q r = rw (p, q, r)

not-false : {b : Bool} → not b ≡ false → b ≡ true
not-false {b} h = ground arith

both_hold : (a a' b b' : ℕ) → (not (a == a') || not (b == b')) ≡ false → (a ≡ a') × (b ≡ b')
both_hold a a' b b' h = ground arith

types_agree :
    (t e : ℕ)
    → (not (t == 0) && (not (e == 0) && not (t == e))) ≡ false
    → (t ≡ 0) ⊎ ((e ≡ 0) ⊎ (t ≡ e))
types_agree t e h = ground arith

last_checks_passed :
    (named : Option Error) (digest : Option (List ℕ)) (signed : List ℕ → Bool)
    → last_checks named digest signed ≡ none
    → (named ≡ none) × (d : List ℕ) × (digest ≡ some d) × (signed d ≡ true)
unfolding last_checks
last_checks_passed (some e) digest signed h = cc
last_checks_passed none none signed h = cc
last_checks_passed none (some d) signed h = (refl, d, refl, ground arith)

module _ (k : Crypto) where
  module _ (keys : List Key) (expected : FileType) (path : List ℕ) (len : ℕ)
      (hash block : List ℕ) where
    -- `verify_block` returns true only for a block that vouches for the payload: its magic,
    -- version, length, type, algorithms, hash and name fit, and one of the configured keys is of
    -- P-256, is the key that the block names if it names one, and verifies its signature over the
    -- hash of its first 192 bytes.
    pub verify_block-Vouches :
        verify_block k keys expected path len hash block ≡ none
        → Vouches k keys expected path len hash block
    unfolding verify_block
    verify_block-Vouches h =
        let (_, h1) = passed _ no_trusted_keys _ h in
        let (magic', h2) = passed _ magic_missing _ h1 in
        let (version', h3) = passed _ bad_version _ h2 in
        let (len', h4) = passed _ length_mismatch _ h3 in
        let (type', h5) = passed _ type_mismatch _ h4 in
        let (alg, h6) = passed _ bad_algorithm _ h5 in
        let (hash', h7) = passed _ hash_mismatch _ h6 in
        let (named, digest', hashed, accepted) = last_checks_passed _ _ _ h7 in
        record {
          magic = (bytes_eq_iff (take 32 block) sig_magic).0 (not-false magic');
          version = (both_hold (le16 block 32) 1 (le16 block 34) sig_block_size version').0;
          header_len = (both_hold (le16 block 32) 1 (le16 block 34) sig_block_size version').1;
          payload_len = (==_iff (le32 block 40) len).0 (not-false len');
          file_type = types_agree (get_or block 44 0) (type_code expected) type';
          hash_alg = (both_hold (get_or block 46 0) 1 (get_or block 47 0) 1 alg).0;
          sig_alg = (both_hold (get_or block 46 0) 1 (get_or block 47 0) 1 alg).1;
          payload_hash = (bytes_eq_iff (slice 64 32 block) hash).0 (not-false hash');
          filename = (name_error-Names (slice 96 96 block) (basename path)).0 named;
          digest = digest';
          digest_of_metadata = hashed;
          signed =
              (any_key_accepts_iff k (slice 48 16 block) digest' (slice 192 64 block) keys).0
                accepted;
        }

    -- Conversely a block that vouches for the payload is accepted, if keys are configured.
    pub Vouches-verify_block :
        Vouches k keys expected path len hash block
        → verify_block k keys expected path len hash block ≡ none
    unfolding verify_block
    Vouches-verify_block v = rung _ no_trusted_keys _ (SomeKey-length v.signed) (
        rung _ magic_missing _ (to_not ((bytes_eq_iff (take 32 block) sig_magic).1 v.magic)) (
          rung _ bad_version _ (both_fine _ _ _ _ v.version v.header_len) (
            rung _ length_mismatch _ (to_not ((==_iff (le32 block 40) len).1 v.payload_len)) (
              rung _ type_mismatch _
                (types_fine (get_or block 44 0) (type_code expected) v.file_type)
                (rung _ bad_algorithm _ (both_fine _ _ _ _ v.hash_alg v.sig_alg) (
                  rung _ hash_mismatch _
                    (to_not ((bytes_eq_iff (slice 64 32 block) hash).1 v.payload_hash))
                    (last_checks_fine _ _ _ v.digest
                      ((name_error-Names (slice 96 96 block) (basename path)).1 v.filename)
                      v.digest_of_metadata
                      ((any_key_accepts_iff k (slice 48 16 block) v.digest (slice 192 64 block)
                          keys).1
                        v.signed))))))))
