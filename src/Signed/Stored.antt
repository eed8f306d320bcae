-- ===== src/Signed/Stored.antt =====
-- src/signed_file.c: `signed_file_type_from_path` and `signed_file_verify_stored`.
use mega65_expansion_board_i.Base.{
  ℕ, zero, suc, ◌+◌, ◌-◌, ◌⊎◌, inl, inr, Bool, true, false, not, ◌&&◌, ◌||◌, Option, none, some,
  List, ◌==◌, leb, ltb, if◌then◌else◌, take, length,
}
use mega65_expansion_board_i.Base.Text.{bytes_eq, codes, ci_equal, strrchr}
use mega65_expansion_board_i.Storage.{Storage}
use mega65_expansion_board_i.Signed.Block.{
  Crypto, Error, FileType, any, bit, cor, m65j, firmware, theme, sig_magic, sig_block_size,
  verify_block, no_error, invalid_parameters, open_failed, file_too_short, sha_start_failed,
  read_failed, sha_update_failed, block_read_failed, sha_finish_failed, magic_missing,
}
use mega65_expansion_board_i.Signed.Session.{Config}

-- the type that an extension, its dot included, stands for
unfoldable pub type_of_extension : List ℕ → FileType
type_of_extension dot =
    if ci_equal dot (codes ".bit")
    then bit
    else if ci_equal dot (codes ".cor")
    then cor
    else if ci_equal dot (codes ".m65j")
    then m65j
    else if (ci_equal dot (codes ".uf2") || ci_equal dot (codes ".m65fw"))
        || ci_equal dot (codes ".bin")
    then firmware
    else if ci_equal dot (codes ".m65jtheme") || ci_equal dot (codes ".tar")
    then theme
    else any

unfoldable pub signed_file_type_from_path : List ℕ → FileType
signed_file_type_from_path path = elim (strrchr b'.' path) [
  | none ↦ any
  | some dot ↦ type_of_extension dot
]

module _ (st : Storage) (k : Crypto) where
  -- the answer, `last_err`, and the card
  abbrev pub Verdict : Type 0
  Verdict = Bool × Error × st.Disk

  -- The loop over the payload, of which `left` bytes are to come: an error, or the hash context.
  -- `none` means that the fuel ran out; a round reads one byte at least.
  unfoldable pub hash_loop : ℕ → st.File → ℕ → k.Ctx → st.Disk → Option ((Error ⊎ k.Ctx) × st.Disk)
  hash_loop zero f left c disk = none
  hash_loop (suc fuel) f left c disk =
      let want = if ltb 1024 left then 1024 else left in
      let (ok, buf, disk') = st.storage_read f want disk in
      let rest : k.Ctx → Option ((Error ⊎ k.Ctx) × st.Disk) =
        λ c'. hash_loop fuel f (left - want) c' disk' in
      if left == 0
      then some (inr c, disk)
      else if not (ok && length buf == want)
      then some (inl read_failed, disk')
      else elim (k.sha_update c buf) [
        | none ↦ some (inl sha_update_failed, disk')
        | some c' ↦ rest c'
      ]

  module _ (cfg : Config) (path : List ℕ) (file_type : FileType) (require_signature : Bool) where
    -- the verdict on a payload's hash and a block
    unfoldable pub verdict_on : ℕ → List ℕ → List ℕ → Bool × Error
    verdict_on payload_len hash block =
        let verified : Bool × Error =
          elim (verify_block k cfg.trusted_keys file_type path payload_len hash block) [
            | none ↦ (true, no_error)
            | some e ↦ (false, e)
          ] in
        if not (bytes_eq (take 32 block) sig_magic)
        then (not require_signature, magic_missing)
        else verified

    -- the block is read, the file is closed, and the hash is finished
    unfoldable pub read_block : st.File → ℕ → Error ⊎ k.Ctx → st.Disk → Verdict
    read_block f payload_len (inl e) disk = (false, e, st.storage_close f disk)
    read_block f payload_len (inr c) disk =
        let (ok, block, disk') = st.storage_read f sig_block_size disk in
        let closed = st.storage_close f disk' in
        let judged : Verdict = elim (k.sha_finish c) [
          | none ↦ (false, sha_finish_failed, closed)
          | some hash ↦
              ((verdict_on payload_len hash block).0, (verdict_on payload_len hash block).1, closed)
        ] in
        if not (ok && length block == sig_block_size)
        then (false, block_read_failed, closed)
        else judged

    unfoldable pub verify_open : st.File → st.Disk → Option Verdict
    verify_open f disk =
        let payload_len = st.storage_size f disk - sig_block_size in
        let hashed : Option Verdict = elim k.sha_starts [
          | none ↦ some (false, sha_start_failed, st.storage_close f disk)
          | some c ↦ elim (hash_loop (payload_len + 1) f payload_len c disk) [
            | none ↦ none
            | some r ↦ some (read_block f payload_len r.0 r.1)
          ]
        ] in
        if leb (st.storage_size f disk) sig_block_size
        then some (false, file_too_short, st.storage_close f disk)
        else hashed

    unfoldable pub signed_file_verify_stored : st.Disk → Option Verdict
    signed_file_verify_stored disk =
        let (file, disk') = st.storage_open path disk in
        let opened : Option Verdict = elim file [
          | none ↦ some (false, open_failed, disk')
          | some f ↦ verify_open f disk'
        ] in
        if length path == 0 then some (false, invalid_parameters, disk) else opened
