-- ===== src/Od/Entry/Access.antt =====
-- pkg/od/entry.go: what is written to an entry is what is read back, and nothing else changes.
use gocanopen.Base.{
  le32-bytes32, ℕ, zero, suc, ◌+◌, ◌<◌, ◌≡◌, ◌≢◌, refl, ap, ◌∙◌, sym, Bool, true, false, ◌&&◌,
  Option, none, some, List, [], ◌∷◌, length, get_elem?, replicate, length-replicate, drop_all,
  append-nil, arith, ◌==◌, if◌then◌else◌, bytes32,
}
use gocanopen.Od.Errors.{Odr, done}
use gocanopen.Od.Stream.Whole.{IsOpened, read_whole, write_whole}
use gocanopen.Od.Entry.{
  missing, failed, object_with, opened_stream, plain_streamer, Extension, Variable, Object, nil,
  variable, array, rec, Entry, at, open_at, find_variable, at_place, get_sub_object, find_sub,
  new_streamer, opened_over, streamer_over, is_domain, without_extension, read_exactly,
  write_exactly, shared_write, replace_value, set_value, uint32, put_uint32, decoded,
}
use mathlib.Core.Option

-- An entry with the variable `v` at place `i` under the subindex, which the default access may use.
pub record Holds (e : Entry) (sub i : ℕ) (v : Variable) : Type 0 where
  pub found : find_variable e.object sub ≡ at i v
  pub usable : (is_domain e.object && without_extension e.extension) ≡ false
  pub small : length v.value < 4294967296

streamer_over_origin :
    (v : Variable) (sub : ℕ) (x : Option Extension)
    → streamer_over v sub x true ≡ plain_streamer v sub
unfolding streamer_over
streamer_over_origin v sub none = refl
streamer_over_origin v sub (some e) = refl

opened_Holds :
    (e : Entry) (sub i : ℕ) (v : Variable)
    → Holds e sub i v
    → new_streamer e sub true ≡ open_at i (plain_streamer v sub)
unfolding new_streamer opened_over
opened_Holds e sub i v h = ground (arith, h.found, streamer_over_origin v sub e.extension)

-- Without an extension, the default access is used from everywhere.
pub opened_Holds_default :
    (e : Entry) (sub i : ℕ) (v : Variable)
    → Holds e sub i v
    → e.extension ≡ none
    → new_streamer e sub false ≡ open_at i (plain_streamer v sub)
unfolding new_streamer opened_over streamer_over
opened_Holds_default e sub i v h default = ground (arith, h.found, h.usable, default)

not_disabled :
    (o : Object) (sub : ℕ) (err : Odr) (default : Bool)
    → find_variable o sub ≡ missing err
    → (is_domain o && default && (sub == 0)) ≡ false
unfolding find_variable is_domain
not_disabled nil sub err default e = refl
not_disabled (variable v) sub err default e = ground (arith, e)
not_disabled (array vs) sub err default e = refl
not_disabled (rec vs) sub err default e = refl

-- A subindex without a variable is an error, also under an extension.
pub new_streamer-missing :
    (e : Entry) (sub : ℕ) (err : Odr) (origin : Bool)
    → find_variable e.object sub ≡ missing err
    → new_streamer e sub origin ≡ failed err
unfolding new_streamer opened_over
new_streamer-missing e sub err origin h =
    rw (not_disabled e.object sub err (without_extension e.extension) h, h) refl

pub opened_stream-IsOpened :
    (v : Variable) (sub : ℕ) → length v.value < 4294967296 → IsOpened (opened_stream v sub)
unfolding opened_stream
opened_stream-IsOpened v sub h = record {
  there = refl;
  start = refl;
  whole = omega arith;
  small = h;
}

pub read_exactly_lem :
    (e : Entry) (sub i : ℕ) (v : Variable)
    → Holds e sub i v
    → read_exactly e sub (length v.value) true ≡ done (v.value, none)
unfolding read_exactly plain_streamer opened_stream
read_exactly_lem e sub i v h = ground (
  arith,
  opened_Holds e sub i v h,
  read_whole (opened_stream v sub) (replicate (length v.value) 0)
      (opened_stream-IsOpened v sub h.small)
      (omega (arith, length-replicate {A = ℕ} (length v.value) 0)),
  length-replicate {A = ℕ} (length v.value) 0,
  drop_all {A = ℕ} (length v.value) (replicate (length v.value) 0)
      (omega (arith, length-replicate {A = ℕ} (length v.value) 0)),
  append-nil v.value,
)

pub write_exactly_lem :
    (e : Entry) (sub i : ℕ) (v : Variable) (bytes : List ℕ)
    → Holds e sub i v
    → length bytes ≡ length v.value
    → write_exactly e sub bytes true ≡ done (shared_write e i bytes, none)
unfolding write_exactly plain_streamer opened_stream
write_exactly_lem e sub i v bytes h same = ground (
  arith,
  opened_Holds e sub i v h,
  write_whole (opened_stream v sub) bytes (opened_stream-IsOpened v sub h.small) same,
)

pub get_elem?-set_value_self :
    (vs : List Variable) (i : ℕ) (v : Variable) (bytes : List ℕ)
    → get_elem? vs i ≡ some v
    → get_elem? (set_value vs i bytes) i ≡ some (replace_value v bytes)
unfolding set_value
get_elem?-set_value_self [] i v bytes h = cc
get_elem?-set_value_self (w ∷ vs) zero v bytes h = ap (Option.map (λ x. replace_value x bytes)) h
get_elem?-set_value_self (w ∷ vs) (suc i) v bytes h = get_elem?-set_value_self vs i v bytes h

pub get_elem?-set_value_ne :
    (vs : List Variable) (i j : ℕ) (bytes : List ℕ)
    → i ≢ j
    → get_elem? (set_value vs i bytes) j ≡ get_elem? vs j
unfolding set_value
get_elem?-set_value_ne [] i j bytes ne = refl
get_elem?-set_value_ne (w ∷ vs) zero zero bytes ne = absurd (ne refl)
get_elem?-set_value_ne (w ∷ vs) zero (suc j) bytes ne = refl
get_elem?-set_value_ne (w ∷ vs) (suc i) zero bytes ne = refl
get_elem?-set_value_ne (w ∷ vs) (suc i) (suc j) bytes ne =
    get_elem?-set_value_ne vs i j bytes (λ e. ne (ap suc e))

length-set_value :
    (vs : List Variable) (i : ℕ) (bytes : List ℕ) → length (set_value vs i bytes) ≡ length vs
unfolding set_value
length-set_value [] i bytes = refl
length-set_value (v ∷ vs) zero bytes = refl
length-set_value (v ∷ vs) (suc i) bytes = ap suc (length-set_value vs i bytes)

find_sub-set_value :
    (vs : List Variable) (i sub k : ℕ) (bytes : List ℕ)
    → find_sub (set_value vs i bytes) sub k ≡ find_sub vs sub k
unfolding find_sub set_value replace_value
find_sub-set_value [] i sub k bytes = refl
find_sub-set_value (v ∷ vs) zero sub k bytes = refl
find_sub-set_value (v ∷ vs) (suc i) sub k bytes =
    ap (λ r. if v.sub_index == sub then some k else r) (find_sub-set_value vs i sub (k + 1) bytes)

at_place_inv :
    (vs : List Variable) (i j : ℕ) (v : Variable)
    → at_place vs (some j) ≡ at i v
    → (j ≡ i) × (get_elem? vs j ≡ some v)
unfolding at_place
at_place_inv vs i j v h = ground arith

-- Going through the place of a list: what a change at place `i` does to what place `p` shows.
at_place-set_value_self :
    (vs : List Variable) (i : ℕ) (v : Variable) (bytes : List ℕ) (p : Option ℕ)
    → at_place vs p ≡ at i v
    → at_place (set_value vs i bytes) p ≡ at i (replace_value v bytes)
unfolding at_place
at_place-set_value_self vs i v bytes none h = cc
at_place-set_value_self vs i v bytes (some j) h =
    let found = at_place_inv vs i j v h in
    ground (arith, get_elem?-set_value_self vs j v bytes found.1)

at_place-set_value_ne :
    (vs : List Variable) (i j : ℕ) (w : Variable) (bytes : List ℕ) (p : Option ℕ)
    → i ≢ j
    → at_place vs p ≡ at j w
    → at_place (set_value vs i bytes) p ≡ at j w
unfolding at_place
at_place-set_value_ne vs i j w bytes none ne h = cc
at_place-set_value_ne vs i j w bytes (some k) ne h =
    let found = at_place_inv vs j k w h in
    ground (arith, get_elem?-set_value_ne vs i k bytes (λ e. ne (e ∙ found.0)))

find_variable-object_with_self :
    (o : Object) (sub i : ℕ) (v : Variable) (bytes : List ℕ)
    → find_variable o sub ≡ at i v
    → find_variable (object_with o i bytes) sub ≡ at i (replace_value v bytes)
unfolding find_variable object_with get_sub_object
find_variable-object_with_self nil sub i v bytes h = cc
find_variable-object_with_self (variable w) sub i v bytes h = ground arith
find_variable-object_with_self (array vs) sub i v bytes h =
    rw (length-set_value vs i bytes)
      (at_place-set_value_self vs i v bytes (get_sub_object (array vs) sub) h)
find_variable-object_with_self (rec vs) sub i v bytes h =
    rw (find_sub-set_value vs i sub 0 bytes)
      (at_place-set_value_self vs i v bytes (find_sub vs sub 0) h)

find_variable-object_with_ne :
    (o : Object) (sub i j : ℕ) (v w : Variable) (first : ℕ) (bytes : List ℕ)
    → find_variable o first ≡ at i v
    → i ≢ j
    → find_variable o sub ≡ at j w
    → find_variable (object_with o i bytes) sub ≡ at j w
unfolding find_variable object_with get_sub_object
find_variable-object_with_ne nil sub i j v w first bytes g ne h = cc
find_variable-object_with_ne (variable x) sub i j v w first bytes g ne h = ground arith
find_variable-object_with_ne (array vs) sub i j v w first bytes g ne h =
    rw (length-set_value vs i bytes)
      (at_place-set_value_ne vs i j w bytes (get_sub_object (array vs) sub) ne h)
find_variable-object_with_ne (rec vs) sub i j v w first bytes g ne h =
    rw (find_sub-set_value vs i sub 0 bytes)
      (at_place-set_value_ne vs i j w bytes (find_sub vs sub 0) ne h)

is_domain-object_with :
    (o : Object) (i : ℕ) (bytes : List ℕ) → is_domain (object_with o i bytes) ≡ is_domain o
unfolding is_domain object_with replace_value
is_domain-object_with nil i bytes = refl
is_domain-object_with (variable v) i bytes = refl
is_domain-object_with (array vs) i bytes = refl
is_domain-object_with (rec vs) i bytes = refl

pub shared_write-Holds :
    (e : Entry) (sub i : ℕ) (v : Variable) (bytes : List ℕ)
    → Holds e sub i v
    → length bytes ≡ length v.value
    → Holds (shared_write e i bytes) sub i (replace_value v bytes)
unfolding shared_write replace_value
shared_write-Holds e sub i v bytes h same = record {
  found = find_variable-object_with_self e.object sub i v bytes h.found;
  usable = rw (is_domain-object_with e.object i bytes) h.usable;
  small = omega (arith, h.small);
}

find_variable-shared_write_ne :
    (e : Entry) (sub i j : ℕ) (v w : Variable) (first : ℕ) (bytes : List ℕ)
    → find_variable e.object first ≡ at i v
    → i ≢ j
    → find_variable e.object sub ≡ at j w
    → find_variable (shared_write e i bytes).object sub ≡ at j w
unfolding shared_write
find_variable-shared_write_ne e sub i j v w first bytes g ne h =
    find_variable-object_with_ne e.object sub i j v w first bytes g ne h

-- At a place that holds a variable of four bytes with the default streamer, `PutUint32` stores a
-- number that fits a uint32, `Uint32` reads it back from the changed entry, and every variable of
-- the entry at another place is as before.
pub uint32-put_uint32 :
    (e : Entry) (sub i : ℕ) (v : Variable) (value : ℕ)
    → Holds e sub i v
    → length v.value ≡ 4
    → value < 4294967296
    → let e' = shared_write e i (bytes32 value) in
      (put_uint32 e sub value true ≡ done (e', none))
      × (uint32 e' sub ≡ done (value, none))
      × ((other j : ℕ) (w : Variable)
          → i ≢ j
          → find_variable e.object other ≡ at j w
          → find_variable e'.object other ≡ at j w)
unfolding put_uint32 uint32 decoded replace_value
uint32-put_uint32 e sub i v value h four small = (
  write_exactly_lem e sub i v (bytes32 value) h (sym four),
  rw (stored, uint32) (ap (λ (n : ℕ). done (n, none)) (le32-bytes32 value small)),
  λ other j w ne g. find_variable-shared_write_ne e other i j v w sub (bytes32 value) h.found ne g,
)
  where
    stored : read_exactly (shared_write e i (bytes32 value)) sub 4 true ≡ done (bytes32 value, none)
    stored =
        read_exactly_lem (shared_write e i (bytes32 value)) sub i (replace_value v (bytes32 value))
          (shared_write-Holds e sub i v (bytes32 value) h (sym four))
