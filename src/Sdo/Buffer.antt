-- ===== src/Sdo/Buffer.antt =====
-- bytes.Buffer of the Go library, as far as pkg/sdo uses it: the bytes not yet read, the number of
-- bytes before them that were read, and the capacity of the array. A new array gets the capacity that
-- is asked for; Go may round it up.
use gocanopen.Base.{
  ℕ, ◌+◌, ◌-◌, ◌*◌, ◌/◌, List, [], ◌++◌, length, take, drop, leb, ltb, ◌==◌, if◌then◌else◌,
}

pub record Buffer : Type 0 where
  pub unread : List ℕ
  pub off : ℕ
  pub cap : ℕ

-- `Available`
unfoldable pub available : Buffer → ℕ
available b = b.cap - (b.off + length b.unread)

-- `Reset`
unfoldable pub reset : Buffer → Buffer
reset b = record b { unread = []; off = 0 }

-- An empty buffer starts over when a write does not fit.
abbrev restarted : Buffer → Buffer
restarted b = if length b.unread == 0 then record b { off = 0 } else b

-- `grow`: the room for `n` more bytes, by moving the bytes to the front or by a new array.
unfoldable pub grow : Buffer → ℕ → Buffer
grow b n =
    if leb (b.off + length b.unread + n) b.cap
    then b
    else if leb (n + length b.unread) (b.cap / 2)
    then record b { off = 0 }
    else record b {
      off = 0;
      cap =
          if ltb (length b.unread + b.off + n) (2 * (b.cap - b.off))
          then 2 * (b.cap - b.off)
          else length b.unread + b.off + n;
    }

-- `Write`
unfoldable pub write : Buffer → List ℕ → Buffer
write b bytes =
    let room =
      if leb (b.off + length b.unread + length bytes) b.cap
      then b
      else grow (restarted b) (length bytes) in
    record room { unread = room.unread ++ bytes }

-- `Read` of at most `n` bytes: the bytes and the buffer.
unfoldable pub read : Buffer → ℕ → List ℕ × Buffer
read b n = if length b.unread == 0 then ([], reset b) else (
  take n b.unread,
  record b { unread = drop n b.unread; off = b.off + length (take n b.unread) },
)

-- `Truncate`
unfoldable pub truncate : Buffer → ℕ → Buffer
truncate b n = if n == 0 then reset b else record b { unread = take n b.unread }
