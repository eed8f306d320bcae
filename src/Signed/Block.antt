-- ===== src/Signed/Block.antt =====
-- src/signed_file.c: the signature block and `verify_block`.
use mega65_expansion_board_i.Base.{
  ℕ, zero, suc, ◌+◌, ◌*◌, ◌^◌, ◌≡◌, Bool, true, false, not, ◌&&◌, ◌||◌, Option, none, some, List,
  [], ◌∷◌, ◌++◌, ◌==◌, leb, if◌then◌else◌, get_or, slice, take, drop, length,
}
use mega65_expansion_board_i.Base.Text.{bytes_eq, strrchr, cstr, codes}

-- M65_SIG_BLOCK_SIZE
abbrev pub sig_block_size : ℕ
sig_block_size = 256

-- `sig_magic`
abbrev pub sig_magic : List ℕ
sig_magic =
    codes "M65JTAG-SIGBLOCK-V1"
    ++ (0xa5 ∷ 0x65 ∷ 0x19 ∷ 0x83 ∷ 0x42 ∷ 0x7c ∷ 0xd1 ∷ 0x5e ∷ 0x09 ∷ 0xba ∷ 0x6f ∷ 0x34 ∷ 0xc8
        ∷ [])

-- `m65_signed_file_type_t`
pub data FileType : Type 0 where
  any bit cor m65j firmware theme : FileType

abbrev pub type_code : FileType → ℕ
type_code any = 0
type_code bit = 1
type_code cor = 2
type_code m65j = 3
type_code firmware = 4
type_code theme = 5

-- `last_err`, by message
pub data Error : Type 0 where
  no_error no_trusted_keys magic_missing bad_version length_mismatch type_mismatch : Error
  bad_algorithm hash_mismatch name_not_terminated name_mismatch cannot_hash_metadata : Error
  verification_failed file_not_open write_failed sync_failed invalid_parameters : Error
  must_end_with_block required_but_no_keys sha_start_failed open_failed too_long : Error
  sha_update_failed sha_finish_failed short_receive file_too_short read_failed : Error
  block_read_failed : Error

-- `remote_auth_key_t`, whose only algorithm is P-256 (`is_p256` is `alg == REMOTE_AUTH_KEY_P256`)
pub record Key : Type 0 where
  pub is_p256 : Bool
  pub bytes : List ℕ

unfoldable pub le16 : List ℕ → ℕ → ℕ
le16 p i = get_or p i 0 + get_or p (i + 1) 0 * 2 ^ 8

unfoldable pub le32 : List ℕ → ℕ → ℕ
le32 p i =
    get_or p i 0
    + get_or p (i + 1) 0 * 2 ^ 8
    + get_or p (i + 2) 0 * 2 ^ 16
    + get_or p (i + 3) 0 * 2 ^ 24

-- `is_zero16`, on the 16 bytes of the key id
unfoldable pub is_zero16 : List ℕ → Bool
is_zero16 [] = true
is_zero16 (x ∷ xs) = x == 0 && is_zero16 xs

unfoldable pub bounded_cstr_len : List ℕ → ℕ → ℕ
bounded_cstr_len s zero = 0
bounded_cstr_len [] (suc max_len) = 0
bounded_cstr_len (x ∷ xs) (suc max_len) = if x == 0 then 0 else suc (bounded_cstr_len xs max_len)

-- Mbed TLS, which the repository does not hold. A context is what was absorbed so far; each call
-- may fail.
pub record Crypto : Type 1 where
  pub Ctx : Type 0
  pub sha_starts : Option Ctx
  pub sha_update : Ctx → List ℕ → Option Ctx
  pub sha_finish : Ctx → Option (List ℕ)
  pub Group : Type 0
  pub Point : Type 0
  pub Mpi : Type 0
  pub group_load : Option Group
  pub point_read : Group → List ℕ → Option Point
  pub mpi_read : List ℕ → Option Mpi
  pub ecdsa_verify : Group → List ℕ → Point → Mpi → Mpi → Bool

-- the documented behaviour of its SHA-256: a digest depends on the bytes absorbed, in order
pub record IsSha (k : Crypto) : Type 0 where
  pub hash : List ℕ → List ℕ
  pub absorbed : k.Ctx → List ℕ
  pub starts-eq : (c : k.Ctx) → k.sha_starts ≡ some c → absorbed c ≡ []
  pub update-eq :
      (c c' : k.Ctx) (xs : List ℕ) → k.sha_update c xs ≡ some c' → absorbed c' ≡ absorbed c ++ xs
  pub finish-eq : (c : k.Ctx) (d : List ℕ) → k.sha_finish c ≡ some d → d ≡ hash (absorbed c)

abbrev pub bind {ℓ κ} : {A : Type ℓ} {B : Type κ} → Option A → (A → Option B) → Option B
bind none f = none
bind (some a) f = f a

-- the checks of the filename field; `expected` is the basename of the destination
unfoldable pub name_error : List ℕ → List ℕ → Option Error
name_error field expected =
    if get_or field 0 0 == 0
    then none
    else if leb 96 (bounded_cstr_len field 96)
    then some name_not_terminated
    else if not (bytes_eq (cstr field) expected)
    then some name_mismatch
    else none

-- the basename: what stands behind the last '/', or all of the path
unfoldable pub basename : List ℕ → List ℕ
basename path = elim (strrchr b'/' path) [ none ↦ path | some s ↦ drop 1 s ]

-- the end of `verify_block`: the filename, the hash of the metadata, the keys
unfoldable pub last_checks : Option Error → Option (List ℕ) → (List ℕ → Bool) → Option Error
last_checks (some e) digest signed = some e
last_checks none none signed = some cannot_hash_metadata
last_checks none (some d) signed = if signed d then none else some verification_failed

module _ (k : Crypto) where
  unfoldable pub sha256_once : List ℕ → Option (List ℕ)
  sha256_once xs = bind k.sha_starts (λ c. bind (k.sha_update c xs) k.sha_finish)

  -- the first 16 bytes of the key's hash
  unfoldable pub key_id_for : Key → Option (List ℕ)
  key_id_for key = bind (sha256_once key.bytes) (λ h. some (take 16 h))

  unfoldable pub verify_p256_signature : Key → List ℕ → List ℕ → Bool
  verify_p256_signature key digest sig =
      let verified = bind k.group_load (λ g. bind (k.point_read g key.bytes) (λ q.
        bind (k.mpi_read (take 32 sig)) (λ r.
          bind (k.mpi_read (slice 32 32 sig)) (λ s. some (k.ecdsa_verify g digest q r s))))) in
      elim verified [ none ↦ false | some ok ↦ ok ]

  -- what the loop over `trusted_keys` asks of one key
  unfoldable pub key_accepts : List ℕ → List ℕ → List ℕ → Key → Bool
  key_accepts want_id digest sig key =
      let id_ok : Bool = elim (key_id_for key) [
        | none ↦ false
        | some have_id ↦ bytes_eq have_id want_id
      ] in
      key.is_p256 && ((is_zero16 want_id || id_ok) && verify_p256_signature key digest sig)

  unfoldable pub any_key_accepts : List ℕ → List ℕ → List ℕ → List Key → Bool
  any_key_accepts want_id digest sig [] = false
  any_key_accepts want_id digest sig (key ∷ keys) =
      key_accepts want_id digest sig key || any_key_accepts want_id digest sig keys

  -- The answer is the error, or none for true.
  unfoldable pub verify_block : List Key → FileType → List ℕ → ℕ → List ℕ → List ℕ → Option Error
  verify_block keys expected_type path payload_len payload_hash block =
      let type = get_or block 44 0 in
      let digest = sha256_once (take 192 block) in
      let named = name_error (slice 96 96 block) (basename path) in
      if length keys == 0
      then some no_trusted_keys
      else if not (bytes_eq (take 32 block) sig_magic)
      then some magic_missing
      else if not (le16 block 32 == 1) || not (le16 block 34 == sig_block_size)
      then some bad_version
      else if not (le32 block 40 == payload_len)
      then some length_mismatch
      else if not (type == 0)
          && (not (type_code expected_type == 0) && not (type == type_code expected_type))
      then some type_mismatch
      else if not (get_or block 46 0 == 1) || not (get_or block 47 0 == 1)
      then some bad_algorithm
      else if not (bytes_eq (slice 64 32 block) payload_hash)
      then some hash_mismatch
      else last_checks named digest
          (λ d. any_key_accepts (slice 48 16 block) d (slice 192 64 block) keys)
