-- ===== src/Sdo/Server/After.antt =====
-- pkg/sdo/server.go: what holds after a handler, and what the access to the dictionary leaves alone.
use gocanopen.Base.{
  if_both, ◌∙◌, ℕ, ◌≡◌, refl, Bool, true, false, not, ◌&&◌, ◌||◌, Option, none, some, List, arith,
  length, leb, ltb, ◌==◌, if◌then◌else◌,
}
use gocanopen.Od.Errors.{Odr, done, panicked, attribute_str, is_err_partial}
use gocanopen.Od.Stream.{Stream, WriteResult, read}
use gocanopen.Sdo.Message.{Message, block_seq_size}
use gocanopen.Sdo.Buffer.{reset}
use gocanopen.Sdo.Server.{
  Server, Run, ok, aborts, panics, spinning, ◌>>=◌, has, with_stream, with_data_length, data_length,
}
use gocanopen.Sdo.Server.Dictionary.{
  after_write, terminated, sized, checked_crc, copied_to, copy_to_streamer, transfer,
  write_object_dictionary, cut_string, buffered, read_outcome, looked_up, read_object_dictionary,
  check_size_consistency, prepared, prepare_rx, permitted, update_streamer,
}

-- `P` holds of the server after an end without error, `Q` after an abort, and the handler ends.
abbrev pub After : (P Q : Server → Type 0) → Run → Type 0
After P Q (ok s) = P s
After P Q (aborts s code) = Q s
After P Q panics = Unit
After P Q spinning = ⊥

abbrev pub Any : Server → Type 0
Any s = Unit

pub bind-After :
    (P P' Q : Server → Type 0) (r : Run) (f : Server → Run)
    → After P' Q r
    → ((s : Server) → P' s → After P Q (f s))
    → After P Q (r >>= f)
bind-After P P' Q (ok s) f h next = next s h
bind-After P P' Q (aborts s code) f h next = h
bind-After P P' Q panics f h next = tt
bind-After P P' Q spinning f h next = h

pub After-weaker :
    (P P' Q Q' : Server → Type 0) (r : Run)
    → After P Q r
    → ((s : Server) → P s → P' s)
    → ((s : Server) → Q s → Q' s)
    → After P' Q' r
After-weaker P P' Q Q' (ok s) h p q = p s h
After-weaker P P' Q Q' (aborts s code) h p q = q s h
After-weaker P P' Q Q' panics h p q = tt
After-weaker P P' Q Q' spinning h p q = h

-- The progress of the state machine is the same in two servers.
pub record Keeps (s s' : Server) : Type 0 where
  pub state : s'.state ≡ s.state
  pub block_size : s'.block_size ≡ s.block_size
  pub block_sequence_nb : s'.block_sequence_nb ≡ s.block_sequence_nb
  pub toggle : s'.toggle ≡ s.toggle

pub Keeps-self : (s : Server) → Keeps s s
Keeps-self s = record { state = refl; block_size = refl; block_sequence_nb = refl; toggle = refl }

pub Keeps-trans : (a b c : Server) → Keeps a b → Keeps b c → Keeps a c
Keeps-trans a b c p q = record {
  state = q.state ∙ p.state;
  block_size = q.block_size ∙ p.block_size;
  block_sequence_nb = q.block_sequence_nb ∙ p.block_sequence_nb;
  toggle = q.toggle ∙ p.toggle;
}

copied_to-Keeps : (s : Server) (r : WriteResult) → After (Keeps s) Any (copied_to s r)
unfolding copied_to after_write
copied_to-Keeps s r = ground arith

copy_to_streamer-Keeps : (s : Server) → After (Keeps s) Any (copy_to_streamer s)
unfolding copy_to_streamer
copy_to_streamer-Keeps s = grind (arith, copied_to-Keeps)

checked_crc-Keeps :
    (operation client added : ℕ) (s : Server)
    → After (Keeps s) Any (checked_crc operation client added s)
unfolding checked_crc
checked_crc-Keeps operation client added s = ground arith

transfer-Keeps :
    (operation client : ℕ) (s : Server) (added : ℕ)
    → After (Keeps s) Any (transfer operation client s added)
unfolding transfer
transfer-Keeps operation client s added =
    bind-After (Keeps s) (Keeps s) Any (checked_crc operation client added s) copy_to_streamer
      (checked_crc-Keeps operation client added s)
      (λ s' k.
        After-weaker (Keeps s') (Keeps s) Any Any _ (copy_to_streamer-Keeps s')
          (λ t. Keeps-trans s s' t k) (λ t x. x))

terminated-Keeps : (s : Server) → Keeps s (terminated s).0
unfolding terminated
terminated-Keeps s = ground arith

buffered-Keeps :
    (count_minimum size : ℕ) (calculate : Bool) (s : Server) (count : ℕ) (more : Bool)
    → After (Keeps s) Any (buffered count_minimum size calculate s count more)
unfolding buffered
buffered-Keeps count_minimum size calculate s count more = ground arith

pub check_size_consistency-Keeps : (s : Server) → After (Keeps s) Any (check_size_consistency s)
unfolding check_size_consistency
check_size_consistency-Keeps s = ground arith

prepared-Keeps : (s : Server) → After (Keeps s) Any (prepared s)
unfolding prepared
prepared-Keeps s = ground arith

-- A handler that keeps the progress, from a server with the progress of `s`.
pub from-Keeps :
    (s s' : Server) (r : Run) → Keeps s s' → After (Keeps s') Any r → After (Keeps s) Any r
from-Keeps s s' r k h =
    After-weaker (Keeps s') (Keeps s) Any Any r h (λ t. Keeps-trans s s' t k) (λ t x. x)

with_data_length-Keeps : (s : Server) (n : ℕ) → Keeps s (with_data_length s n)
with_data_length-Keeps s n = ground arith

pub if-After :
    (P Q : Server → Type 0) (b : Bool) (x y : Run)
    → After P Q x
    → After P Q y
    → After P Q (if b then x else y)
if-After P Q b x y p q = if_both (After P Q) b x y p q

sized-Keeps :
    (s : Server) (string : Bool) (after : Server → ℕ → Run)
    → ((s' : Server) (added : ℕ) → After (Keeps s') Any (after s' added))
    → After (Keeps s) Any (sized s string after)
unfolding sized
sized-Keeps s string after h =
    if-After (Keeps s) Any _ _ _
      (from-Keeps s (terminated s).0 _ (terminated-Keeps s) (h (terminated s).0 (terminated s).1))
      (if-After (Keeps s) Any (data_length s == 0) _ _
        (from-Keeps s (with_data_length s s.size_transferred) _
          (with_data_length-Keeps s s.size_transferred)
          (h (with_data_length s s.size_transferred) 0))
        (if-After (Keeps s) Any (ltb (data_length s) s.size_transferred) _ _ tt
          (if-After (Keeps s) Any (ltb s.size_transferred (data_length s)) _ _ tt (h s 0))))

-- Writing to the dictionary always ends, and leaves the progress of the state machine alone.
pub write_object_dictionary-Keeps :
    (operation client : ℕ) (s : Server)
    → After (Keeps s) Any (write_object_dictionary operation client s)
unfolding write_object_dictionary
write_object_dictionary-Keeps operation client s =
    if-After (Keeps s) Any (ltb 0 s.size_indicated && ltb s.size_indicated s.size_transferred) _ _
      tt
      (if-After (Keeps s) Any (not s.finished) _ _ (transfer-Keeps operation client s 0) (
        if-After (Keeps s) Any (ltb 0 s.size_indicated && ltb s.size_transferred s.size_indicated) _
          _ tt
          (sized-Keeps s (has s attribute_str) (transfer operation client)
            (transfer-Keeps operation client))))

cut_string-Keeps :
    (s : Server) (count : ℕ) (more : Bool) (next : Server → ℕ → Bool → Run)
    → ((s' : Server) (n : ℕ) (b : Bool) → After (Keeps s') Any (next s' n b))
    → After (Keeps s) Any (cut_string s count more next)
unfolding cut_string
cut_string-Keeps s count more next h =
    if-After (Keeps s) Any _ _ _
      (from-Keeps s (with_data_length s _) _ (with_data_length-Keeps s _) (h _ _ false))
      (h s count more)

read_outcome-Keeps :
    (count_minimum size : ℕ) (calculate : Bool) (s : Server) (count : ℕ) (err : Option Odr)
    → After (Keeps s) Any (read_outcome count_minimum size calculate s count err)
unfolding read_outcome
read_outcome-Keeps count_minimum size calculate s count none =
    cut_string-Keeps s count false (buffered count_minimum size calculate)
      (buffered-Keeps count_minimum size calculate)
read_outcome-Keeps count_minimum size calculate s count (some err) =
    if-After (Keeps s) Any (is_err_partial err) _ _
      (cut_string-Keeps s count true (buffered count_minimum size calculate)
        (buffered-Keeps count_minimum size calculate))
      tt

stream_read-Keeps :
    (s : Server) (st : Stream) (bytes : List ℕ)
    → Keeps s (record (with_stream s st) { intermediate_buf = bytes })
stream_read-Keeps s st bytes = ground arith

-- Reading from the dictionary too.
pub read_object_dictionary-Keeps :
    (count_minimum size : ℕ) (calculate : Bool) (s : Server)
    → After (Keeps s) Any (read_object_dictionary count_minimum size calculate s)
unfolding read_object_dictionary
read_object_dictionary-Keeps count_minimum size calculate s =
    if-After (Keeps s) Any (s.finished || leb count_minimum (length s.buf.unread)) _ _
      (Keeps-self s)
      (elim (read s.streamer s.intermediate_buf)
        as (λ o. After (Keeps s) Any (elim o [
          | panicked ↦ panics
          | done r ↦
              read_outcome count_minimum size calculate
                (record (with_stream s r.stream) { intermediate_buf = r.filled }) r.count r.err
        ])) [
          | panicked ↦ tt
          | done r ↦
              from-Keeps s _ _ (stream_read-Keeps s r.stream r.filled)
                (read_outcome-Keeps count_minimum size calculate _ r.count r.err)
        ])

pub prepare_rx-Keeps : (s : Server) → After (Keeps s) Any (prepare_rx s)
unfolding prepare_rx
prepare_rx-Keeps s =
    bind-After (Keeps s) (Keeps s) Any _ prepared
      (from-Keeps s (record s { buf = reset s.buf; size_transferred = 0; finished = false }) _
        (record { state = refl; block_size = refl; block_sequence_nb = refl; toggle = refl })
        (read_object_dictionary-Keeps block_seq_size 0 false _))
      (λ s' k. from-Keeps s s' (prepared s') k (prepared-Keeps s'))

permitted-Keeps : (s : Server) → After (Keeps s) Any (permitted s)
unfolding permitted
permitted-Keeps s = grind (arith, prepare_rx-Keeps)

looked_up-Keeps : (s : Server) (err : Option Odr) → After (Keeps s) Any (looked_up s err)
unfolding looked_up
looked_up-Keeps s none = permitted-Keeps s
looked_up-Keeps s (some err) = tt

-- And so does the look up of the object of a transfer.
pub update_streamer-Keeps : (s : Server) (m : Message) → After (Keeps s) Any (update_streamer s m)
unfolding update_streamer
update_streamer-Keeps s m =
    from-Keeps s _ _
      (record { state = refl; block_size = refl; block_sequence_nb = refl; toggle = refl })
      (looked_up-Keeps _ _)
