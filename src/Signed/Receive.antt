-- ===== src/Signed/Receive.antt =====
-- src/signed_file.c: `signed_file_receive_write`, `_finish` and `_abort`.
use mega65_expansion_board_i.Base.{
  ℕ, zero, suc, ◌+◌, ◌%◌, ◌^◌, Bool, true, false, not, ◌&&◌, Option, none, some, List, [], ◌∷◌,
  ◌++◌, ◌==◌, leb, ltb, if◌then◌else◌, take, drop, length,
}
use mega65_expansion_board_i.Base.Text.{bytes_eq}
use mega65_expansion_board_i.Storage.{Storage}
use mega65_expansion_board_i.Signed.Block.{
  Crypto, Error, sig_magic, sig_block_size, verify_block, bind, no_error, too_long,
  sha_update_failed, sha_finish_failed, short_receive,
}
use mega65_expansion_board_i.Signed.Session
use mega65_expansion_board_i.Signed.Session.{Session, sub32, at_most}

module _ (st : Storage) (k : Crypto) where
  abbrev pub Out : Type 0
  Out = Bool × Session st k

  abbrev failed : Error → Session st k → Out
  failed e s = (false, record s { err = e })

  -- a chunk of the block: `memcpy` to `rx->block + rx->block_done`
  unfoldable pub take_block : List ℕ → Session st k → Session st k
  take_block data' s = record s {
    rx = record s.rx {
      block = s.rx.block ++ data';
      block_done = s.rx.block_done + length data';
      done = s.rx.done + length data';
    };
  }

  abbrev pub count_payload : List ℕ → Option k.Ctx → Session st k → Session st k
  count_payload data' sha s = record s {
    rx = record s.rx {
      sha = sha;
      payload_done = s.rx.payload_done + length data';
      done = s.rx.done + length data';
    };
  }

  abbrev pub reject : Session st k → Session st k
  reject s = record s { rx = record s.rx { rejected = true } }

  -- a chunk of the payload: written out, then hashed if a block is to follow
  unfoldable pub take_payload : List ℕ → Session st k → Out
  take_payload data' s =
      let (ok, s') = Session.receive_payload_write st k data' s in
      if not ok
      then (false, reject s')
      else if s.rx.candidate_signature
      then elim (bind s.rx.sha (λ c. k.sha_update c data')) [
        | none ↦ failed sha_update_failed (reject s')
        | some c ↦ (true, count_payload data' (some c) s')
      ]
      else (true, count_payload data' s.rx.sha s')

  -- `while (len)`; `none` means that the fuel ran out, and one round takes one byte at least
  unfoldable pub write_loop : ℕ → List ℕ → Session st k → Option Out
  write_loop zero data' s = none
  write_loop (suc fuel) [] s = some (true, s)
  write_loop (suc fuel) (x ∷ xs) s =
      let data' = x ∷ xs in
      let want_block = at_most (sub32 sig_block_size s.rx.block_done) (length data') in
      let limit = if s.rx.candidate_signature then s.rx.block_offset else s.rx.total_length in
      let want = at_most (sub32 limit s.rx.done) (length data') in
      let in_block =
        write_loop fuel (drop want_block data') (take_block (take want_block data') s) in
      let (ok, s') = take_payload (take want data') s in
      let in_payload = write_loop fuel (drop want data') s' in
      let idle = write_loop fuel data' s in
      if s.rx.candidate_signature && leb s.rx.block_offset s.rx.done
      then in_block
      else if want == 0
      then idle
      else if ok
      then in_payload
      else some (false, s')

  unfoldable pub signed_file_receive_write : List ℕ → Session st k → Option Out
  signed_file_receive_write data' s =
      let looped = write_loop (length data' + 1) data' s in
      if s.rx.rejected
      then some (false, s)
      else if ltb s.rx.total_length ((s.rx.done + length data') % 2 ^ 32)
      then some (failed too_long (reject s))
      else looped

  -- close the file and report success, if the last sync succeeds
  unfoldable pub close_and_accept : Session st k → Out
  close_and_accept s =
      let (ok, s') = Session.receive_payload_sync_close st k s in
      if ok then (true, record s' { err = no_error }) else (false, s')

  -- the block turns out to be payload: the transfer carries no signature and needs none
  unfoldable pub finish_unsigned : Session st k → Out
  finish_unsigned s =
      let (ok, s') = Session.receive_payload_write st k s.rx.block s in
      let s'' = record s' { rx = record s'.rx { sha = none; candidate_signature = false } } in
      if ok then close_and_accept s'' else (false, record s' { rx = record s'.rx { sha = none } })

  -- the block is verified: a kept package has it appended
  unfoldable pub finish_kept : Bool → Session st k → Out
  finish_kept preserve_transfer s =
      let (kept, s') = Session.receive_payload_write st k s.rx.block s in
      if not preserve_transfer
      then close_and_accept (record s { err = no_error })
      else if kept
      then close_and_accept (record s' { err = no_error })
      else (false, s')

  -- the block is verified against the payload's hash
  unfoldable pub finish_signed : Session st k → Out
  finish_signed s =
      let s' = record s { rx = record s.rx { sha = none; candidate_signature = false } } in
      elim (bind s.rx.sha k.sha_finish) [
        | none ↦ failed sha_finish_failed (record s { rx = record s.rx { sha = none } })
        | some hash ↦
            elim (verify_block k s.rx.cfg.trusted_keys s.rx.file_type s.rx.final_path
              s.rx.block_offset hash s.rx.block) [
                | some e ↦
                    (false, (Session.receive_payload_sync_close st k (record s' { err = e })).1)
                | none ↦ finish_kept s.rx.preserve_transfer s'
              ]
      ]

  unfoldable pub signed_file_receive_finish : Session st k → Out
  signed_file_receive_finish s =
      let saw_magic =
        s.rx.block_done == sig_block_size && bytes_eq (take 32 s.rx.block) sig_magic in
      let s' = record s { rx = record s.rx { saw_magic = saw_magic } } in
      if s.rx.rejected
      then (false, s)
      else if not (s.rx.done == s.rx.total_length)
      then failed short_receive s
      else if not s.rx.candidate_signature
      then close_and_accept s
      else if not saw_magic && not s.rx.require_signature
      then finish_unsigned s'
      else finish_signed s'

  -- closing without a sync, and dropping the temporary file
  unfoldable pub signed_file_receive_abort : Session st k → Session st k
  signed_file_receive_abort s =
      let closed : st.Disk = elim s.rx.out_file [
        | none ↦ s.disk
        | some f ↦ st.storage_close f s.disk
      ] in
      let disk = if s.rx.out_open then closed else s.disk in
      let deleted = (st.storage_delete s.rx.tmp_path disk).1 in
      record s {
        disk = (if length s.rx.tmp_path == 0 then disk else deleted);
        rx = record s.rx {
          out_open = false;
          sha = (if s.rx.candidate_signature then none else s.rx.sha);
          candidate_signature = false;
          tmp_path = [];
          rejected = true;
        };
      }
