-- ===== src/Binlog/Heads.antt =====
-- The head that CreateLog of src/Binlog.cc writes, and that OpenLog reads.
use mathlib.Core.List.{append_assoc}
use libsimplesvr.Base.{
  ℕ, ◌+◌, ◌^◌, ◌≤◌, ◌<◌, ◌≡◌, refl, sym, ap, ap₂, ◌∙◌, true, false, some, List, [], ◌++◌, length,
  take, drop, length-append, length-drop, arith, u32,
}
use libsimplesvr.Base.Int.{pos}
use libsimplesvr.IoBuffer.Bytes.{Host}
use libsimplesvr.IoBuffer.Buffer.{IoBuffer, returns, splice, io_buffer_for, io_buffer_over}
use libsimplesvr.IoBuffer.Buffer.Memory.{length-splice}
use libsimplesvr.IoBuffer.Streams.Raw.{IsValid, written}
use libsimplesvr.Binlog.{
  Binlog, File, Head, live, head_magic, head_version, head_size, zeros, get_head, put_head, same,
  open_log, create_log, returned, overwrite, write_out,
}
use libsimplesvr.Binlog.Appends.{length-zeros, overwrite-behind, take_all-le}
use libsimplesvr.Binlog.HeadBytes.{
  IsHead, get_head-returns, head_bytes, length-head_bytes, put_head-returns, splice-front,
}

-- The head that CreateLog makes.
abbrev pub created_head : ℕ → ℕ → Head
created_head block_size now = record {
  magic = head_magic;
  version = head_version;
  data_offset = head_size;
  block_size = block_size;
  create_time = u32 now;
}

created-IsHead : (block_size now : ℕ) → block_size < 2 ^ 32 → IsHead (created_head block_size now)
created-IsHead block_size now h = record {
  magic = omega arith;
  version = omega arith;
  data_offset = omega arith;
  block_size = h;
  create_time = omega arith;
}

-- The 4096 bytes that CreateLog writes.
unfoldable pub file_head : ℕ → ℕ → List ℕ
file_head block_size now = splice 0 (head_bytes (created_head block_size now)) (zeros head_size)

module _ (host : Host) (block_size now : ℕ) (word : block_size < 2 ^ 32) where
  abbrev h : Head
  h = created_head block_size now

  length-file_head : length (file_head block_size now) ≡ head_size
  unfolding file_head
  length-file_head =
      length-splice 0 (head_bytes h) (zeros head_size) (
        omega
          (arith, length-zeros head_size, length-head_bytes h (created-IsHead block_size now word)))
      ∙ length-zeros head_size

  abbrev blank : IoBuffer
  blank = io_buffer_for (some (zeros head_size)) head_size

  blank-IsValid : IsValid (zeros head_size) blank
  unfolding io_buffer_for io_buffer_over
  blank-IsValid = record {
    memory = refl;
    allocated = omega (arith, length-zeros head_size);
    sized = omega (arith, length-zeros head_size);
    readable = omega (arith, length-zeros head_size);
    reading = omega arith;
    writing = omega arith;
  }

  put_created : put_head host h blank ≡ returns tt (written (head_bytes h) (zeros head_size) blank)
  unfolding io_buffer_for io_buffer_over
  put_created =
      put_head-returns host h (created-IsHead block_size now word) blank-IsValid (omega arith)

  pub create_log_lem :
      (old : List ℕ) (limit : ℕ) (log : Binlog)
      → head_size ≤ limit
      → create_log host (some old) true now (some limit) block_size log
        ≡ returned (pos 0) (record {
          fd = live (record {
            contents = file_head block_size now;
            position = head_size;
            append = false;
          });
          head = h;
        })
  unfolding create_log write_out file_head zeros io_buffer_for io_buffer_over
  create_log_lem old limit log l =
      let bytes = file_head block_size now in
      let all : take limit bytes ≡ bytes =
        take_all-le limit bytes (omega (arith, length-file_head)) in
      let over : overwrite 0 bytes [] ≡ bytes =
        overwrite-behind 0 bytes [] (omega (arith, length-file_head)) in
      rw (put_created, create_log)
        (ap₂
          (λ c n. returned (pos 0) (record {
            fd = live (record { contents = c; position = n; append = false });
            head = h;
          }))
          (ap (λ q. overwrite 0 q []) all ∙ over)
          (ap (λ q. 0 + length q) all ∙ omega (arith, length-file_head)))

  -- The head is read back from a file that starts with it.
  module _ (more buffer : List ℕ) (sized : length buffer ≡ head_size) where
    memory : List ℕ
    memory = splice 0 (take head_size (file_head block_size now ++ more)) buffer

    memory_lem : memory ≡ file_head block_size now ++ drop head_size buffer
    unfolding memory
    memory_lem =
        splice-front head_size (file_head block_size now) more buffer (sym length-file_head)

    length-memory : length memory ≡ head_size
    length-memory = omega (
      arith,
      ap length memory_lem,
      length-append (file_head block_size now) (drop head_size buffer),
      length-drop head_size buffer,
      length-file_head,
      sized,
    )

    front : (rest : List ℕ) × (memory ≡ head_bytes h ++ rest)
    unfolding file_head splice
    front = (
      _,
      memory_lem
          ∙ append_assoc (head_bytes h) (drop (0 + length (head_bytes h)) (zeros head_size))
              (drop head_size buffer),
    )

    opened_IsValid : IsValid memory (io_buffer_over (some memory) head_size head_size)
    unfolding io_buffer_over
    opened_IsValid = record {
      memory = refl;
      allocated = omega (arith, length-memory);
      sized = omega (arith, length-memory);
      readable = omega (arith, length-memory);
      reading = omega arith;
      writing = omega arith;
    }

    got :
        (old : Head)
        → (io : IoBuffer) × (get_head host old (io_buffer_over (some memory) head_size head_size)
            ≡ returns h io)
    unfolding io_buffer_over
    got old =
        get_head-returns host h (created-IsHead block_size now word) opened_IsValid old front.0
          front.1 (omega arith)

    open_log_lem :
        (log : Binlog)
        → open_log host (some (file_head block_size now ++ more)) buffer true log
          ≡ returned (pos 0) (record {
            fd = live (record {
              contents = file_head block_size now ++ more;
              position = 0;
              append = true;
            });
            head = h;
          })
    unfolding open_log memory same
    open_log_lem log = rw ((got log.head).1, open_log) refl

    -- CreateLog, where open and truncate succeed and writev takes all bytes, returns 0 and leaves a file
    -- open whose head it keeps, with the block size and the time; OpenLog of that file, whatever was
    -- written behind its 4096 bytes, returns 0 and reads the same head. The block size has 32 bits.
    pub open_log-create_log :
        (old : List ℕ) (limit : ℕ) (log log₂ : Binlog)
        → head_size ≤ limit
        → (f : File) × (head : Head) × (create_log host
              (some old)
              true
              now
              (some limit)
              block_size
              log
            ≡ returned (pos 0) (record { fd = live f; head = head }))
          × (length f.contents ≡ head_size)
          × (head.block_size ≡ block_size)
          × (head.create_time ≡ u32 now)
          × (open_log host (some (f.contents ++ more)) buffer true log₂
              ≡ returned (pos 0) (record {
                fd = live (record { contents = f.contents ++ more; position = 0; append = true });
                head = head;
              }))
    open_log-create_log old limit log log₂ l = (
      record { contents = file_head block_size now; position = head_size; append = false },
      h,
      create_log_lem old limit log l,
      length-file_head,
      refl,
      refl,
      open_log_lem log₂,
    )
