-- ===== src/Signed/Session.antt =====
-- src/signed_file.c: the receiver's state, its writes to the card, and `signed_file_receive_begin`.
use mega65_expansion_board_i.Base.{
  ℕ, ◌+◌, ◌-◌, ◌%◌, ◌^◌, Bool, true, false, not, ◌&&◌, ◌||◌, Option, none, some, List, [], ◌==◌,
  ltb, if◌then◌else◌, take, length,
}
use mega65_expansion_board_i.Storage.{Storage}
use mega65_expansion_board_i.Signed.Block.{
  Key, FileType, firmware, theme, Crypto, sig_block_size, Error, no_error, file_not_open,
  write_failed, sync_failed, invalid_parameters, must_end_with_block, required_but_no_keys,
  sha_start_failed, open_failed,
}

-- what the receiver reads of `remote_auth_config_t`
pub record Config : Type 0 where
  pub require_signatures : Bool
  pub trusted_keys : List Key

-- `signed_file_rx_t`. `block` holds the bytes of the block received so far, `sha` is none when
-- the context is not in use, and `out_file` is none while `impl` is NULL.
pub record Rx (st : Storage) (k : Crypto) : Type 0 where
  pub final_path : List ℕ
  pub tmp_path : List ℕ
  pub cfg : Config
  pub total_length : ℕ
  pub block_offset : ℕ
  pub done : ℕ
  pub payload_done : ℕ
  pub require_signature : Bool
  pub preserve_transfer : Bool
  pub candidate_signature : Bool
  pub saw_magic : Bool
  pub rejected : Bool
  pub file_type : FileType
  pub block : List ℕ
  pub block_done : ℕ
  pub sha : Option k.Ctx
  pub out_file : Option st.File
  pub out_open : Bool

-- The receiver with the card and the file's `last_err`.
pub record Session (st : Storage) (k : Crypto) : Type 0 where
  pub rx : Rx st k
  pub disk : st.Disk
  pub err : Error

-- `FIRMWARE` and `THEME` packages keep their block on the card.
unfoldable pub keeps_transfer : FileType → Bool
keeps_transfer firmware = true
keeps_transfer theme = true
keeps_transfer _ = false

-- unsigned 32-bit subtraction
abbrev pub sub32 : ℕ → ℕ → ℕ
sub32 a b = (a + 2 ^ 32 - b) % 2 ^ 32

abbrev pub at_most : ℕ → ℕ → ℕ
at_most want len = if ltb len want then len else want

module _ (st : Storage) (k : Crypto) where
  abbrev pub Out : Type 0
  Out = Bool × Session st k

  abbrev pub failed : Error → Session st k → Out
  failed e s = (false, record s { err = e })

  -- the write of a chunk that is not empty
  unfoldable pub write_chunk : st.File → List ℕ → Session st k → Out
  write_chunk f data' s =
      let (ok, put, disk) = st.storage_write f data' s.disk in
      if not ok || not (put == length data')
      then (false, record s { disk = disk; err = write_failed })
      else (true, record s { disk = disk })

  unfoldable pub receive_payload_write : List ℕ → Session st k → Out
  receive_payload_write data' s =
      if not s.rx.out_open then failed file_not_open s else elim s.rx.out_file [
        | none ↦ failed file_not_open s
        | some f ↦ if length data' == 0 then (true, s) else write_chunk f data' s
      ]

  unfoldable pub close_out : st.File → Session st k → Out
  close_out f s =
      let (ok, disk) = st.storage_sync f s.disk in
      (
        ok,
        record s {
          rx = record s.rx { out_open = false };
          disk = st.storage_close f disk;
          err = (if ok then s.err else sync_failed);
        },
      )

  -- A file that is not open is closed already.
  unfoldable pub receive_payload_sync_close : Session st k → Out
  receive_payload_sync_close s =
      if not s.rx.out_open
      then (true, s)
      else elim s.rx.out_file [ none ↦ (true, s) | some f ↦ close_out f s ]

  unfoldable pub initial_rx : Config → List ℕ → List ℕ → ℕ → FileType → Rx st k
  initial_rx cfg final_path tmp_path total_length file_type =
      let preserve = keeps_transfer file_type in
      let candidate = ltb sig_block_size total_length in
      record {
        final_path = take 255 final_path;
        tmp_path = take 271 tmp_path;
        cfg = cfg;
        total_length = total_length;
        block_offset = (if candidate then total_length - sig_block_size else total_length);
        done = 0;
        payload_done = 0;
        require_signature = cfg.require_signatures || preserve;
        preserve_transfer = preserve;
        candidate_signature = candidate;
        saw_magic = false;
        rejected = false;
        file_type = file_type;
        block = [];
        block_done = 0;
        sha = none;
        out_file = none;
        out_open = false;
      }

  -- the last step of begin: the temporary file is opened
  unfoldable pub begin_open : Option k.Ctx → Rx st k → st.Disk → Out
  begin_open sha rx disk =
      let (file, disk') = st.storage_open_write rx.tmp_path disk in
      elim file [
        | none ↦ (false, record { rx = rx; disk = disk'; err = open_failed })
        | some f ↦ (
          true,
          record {
            rx = record rx { sha = sha; out_file = some f; out_open = true };
            disk = disk';
            err = no_error;
          },
        )
      ]

  -- the checks on the keys and the hash, once the transfer's numbers are set
  unfoldable pub begin_checked : Rx st k → Session st k → Out
  begin_checked rx s =
      if rx.require_signature && not rx.candidate_signature
      then failed must_end_with_block (record s { rx = rx })
      else if rx.require_signature && length rx.cfg.trusted_keys == 0
      then failed required_but_no_keys (record s { rx = rx })
      else if rx.candidate_signature
      then elim k.sha_starts [
        | none ↦ failed sha_start_failed (record s { rx = rx })
        | some c ↦ begin_open (some c) rx s.disk
      ]
      else begin_open none rx s.disk

  unfoldable pub signed_file_receive_begin :
      Config → List ℕ → List ℕ → ℕ → FileType → Session st k → Out
  signed_file_receive_begin cfg final_path tmp_path total_length file_type s =
      if total_length == 0
      then failed invalid_parameters s
      else begin_checked (initial_rx cfg final_path tmp_path total_length file_type) s
