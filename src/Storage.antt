-- ===== src/Storage.antt =====
-- include/storage.h: the file operations that the other parts call. What is behind them (FatFs and
-- the card) is a parameter; `Appends` and `Reads` state what a caller relies on.
use mega65_expansion_board_i.Base.{
  ℕ, ◌+◌, ◌≤◌, ◌≡◌, Bool, true, Option, some, List, [], ◌++◌, length, take, drop,
}

pub record Storage : Type 1 where
  pub Disk : Type 0
  pub File : Type 0
  pub storage_open : List ℕ → Disk → Option File × Disk
  pub storage_open_write : List ℕ → Disk → Option File × Disk
  pub storage_read : File → ℕ → Disk → Bool × List ℕ × Disk
  pub storage_write : File → List ℕ → Disk → Bool × ℕ × Disk
  pub storage_sync : File → Disk → Bool × Disk
  pub storage_seek : File → ℕ → Disk → Bool × Disk
  pub storage_tell : File → Disk → ℕ
  pub storage_size : File → Disk → ℕ
  pub storage_close : File → Disk → Disk
  pub storage_delete : List ℕ → Disk → Bool × Disk
  pub storage_mkdir : List ℕ → Disk → Bool × Disk

-- A file opened for writing is empty, a write that reports all its bytes appends them, and sync and
-- close keep the contents.
pub record Appends (st : Storage) : Type 0 where
  pub contents : st.File → st.Disk → List ℕ
  pub contents-open_write :
      (p : List ℕ) (d d' : st.Disk) (f : st.File)
      → st.storage_open_write p d ≡ (some f, d')
      → contents f d' ≡ []
  pub contents-write :
      (f : st.File) (xs : List ℕ) (d : st.Disk)
      → (st.storage_write f xs d).0 ≡ true
      → (st.storage_write f xs d).1 ≡ length xs
      → contents f (st.storage_write f xs d).2 ≡ contents f d ++ xs
  pub contents-sync :
      (f : st.File) (d : st.Disk) → contents f (st.storage_sync f d).1 ≡ contents f d
  pub contents-close :
      (f : st.File) (d : st.Disk) → contents f (st.storage_close f d) ≡ contents f d

-- A file just opened for reading is as long as `storage_size` says, and a read that succeeds gives
-- the bytes that come next, as many as are asked for or are left.
pub record Reads (st : Storage) : Type 0 where
  pub unread : st.File → st.Disk → List ℕ
  pub size-open :
      (p : List ℕ) (d d' : st.Disk) (f : st.File)
      → st.storage_open p d ≡ (some f, d')
      → st.storage_size f d' ≡ length (unread f d')
  pub read-gives :
      (f : st.File) (n : ℕ) (d : st.Disk)
      → (st.storage_read f n d).0 ≡ true
      → (st.storage_read f n d).1 ≡ take n (unread f d)
  pub unread-read :
      (f : st.File) (n : ℕ) (d : st.Disk)
      → (st.storage_read f n d).0 ≡ true
      → unread f (st.storage_read f n d).2 ≡ drop n (unread f d)

-- A file with a position: a seek inside the file that succeeds sets it, a read that succeeds gives
-- the bytes that stand there, as many as are asked for or are left, and moves it past them.
pub record Seeks (st : Storage) : Type 0 where
  pub contents : st.File → st.Disk → List ℕ
  pub size-contents : (f : st.File) (d : st.Disk) → st.storage_size f d ≡ length (contents f d)
  pub contents-seek :
      (f : st.File) (n : ℕ) (d : st.Disk) → contents f (st.storage_seek f n d).1 ≡ contents f d
  pub contents-read :
      (f : st.File) (n : ℕ) (d : st.Disk) → contents f (st.storage_read f n d).2 ≡ contents f d
  pub tell-seek :
      (f : st.File) (n : ℕ) (d : st.Disk)
      → (st.storage_seek f n d).0 ≡ true
      → n ≤ length (contents f d)
      → st.storage_tell f (st.storage_seek f n d).1 ≡ n
  pub tell-read :
      (f : st.File) (n : ℕ) (d : st.Disk)
      → (st.storage_read f n d).0 ≡ true
      → st.storage_tell f (st.storage_read f n d).2
        ≡ st.storage_tell f d + length (st.storage_read f n d).1
  pub read-at :
      (f : st.File) (n : ℕ) (d : st.Disk)
      → (st.storage_read f n d).0 ≡ true
      → (st.storage_read f n d).1 ≡ take n (drop (st.storage_tell f d) (contents f d))

-- no operation on an open file fails
pub record IsSteady (st : Storage) : Type 0 where
  pub reads : (f : st.File) (n : ℕ) (d : st.Disk) → (st.storage_read f n d).0 ≡ true
  pub seeks : (f : st.File) (n : ℕ) (d : st.Disk) → (st.storage_seek f n d).0 ≡ true
