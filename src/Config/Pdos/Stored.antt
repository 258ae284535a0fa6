-- ===== src/Config/Pdos/Stored.antt =====
-- pkg/config/pdo.go over a node that keeps what is written to it.
use gocanopen.Base.{
  ℕ, zero, suc, ◌+◌, ◌/◌, ◌≤◌, ◌<◌, ◌≡◌, ◌≢◌, refl, ap, ◌∙◌, sym, ◌&&◌, Option, none, some, List,
  [], ◌∷◌, length, arith, ◌==◌, u8, u16, inl, inr, Bool-cases, ==_iff, if◌then◌else◌, bytes32,
  le32-bytes32,
}
use mathlib.Core.Path.{subst}
use gocanopen.Config.{
  Client, Result, ok, Task, continue, chain, number, read_number, read_uint8, read_uint32, outcome,
  write_bytes, write_uint8, write_uint32,
}
use gocanopen.Config.Pdos.{
  MappingParameter, raw_map, of_raw, mapping_index, read_mappings, read_mappings_from,
  read_nb_mappings, clear_from, clear_mappings, write_from, write_mappings,
}

-- The bytes of the objects of a node, by index and subindex.
abbrev pub Memory : Type 0
Memory = ℕ → ℕ → Option (List ℕ)

abbrev pub stored_in : Memory → (index sub : ℕ) → List ℕ → Memory
stored_in m index sub bytes = λ i n. if (i == index) && (n == sub) then some bytes else m i n

-- A client for a node that gives what it has, and takes as many bytes as it has.
pub record Keeps (c : Client) : Type 0 where
  pub memory : c.State → Memory
  pub read_law :
      (s : c.State) (index sub : ℕ) (bytes : List ℕ)
      → memory s index sub ≡ some bytes
      → (s' : c.State) × (c.read_raw s index sub (length bytes)
          ≡ (s', record { data' = bytes; count = length bytes; err = none }))
        × (memory s' ≡ memory s)
  pub write_law :
      (s : c.State) (index sub : ℕ) (old bytes : List ℕ)
      → memory s index sub ≡ some old
      → length old ≡ length bytes
      → (s' : c.State) × (c.write_raw s index sub bytes ≡ (s', none))
        × (memory s' ≡ stored_in (memory s) index sub bytes)

-- An object of some size.
abbrev pub Sized : Memory → (index sub size : ℕ) → Type 0
Sized m index sub size = (old : List ℕ) × (m index sub ≡ some old) × (length old ≡ size)

-- A mapping object: a number of one byte, and eight parameters of four bytes.
pub record HasMapping (m : Memory) (index : ℕ) : Type 0 where
  pub number : Sized m index 0 1
  pub parameter : (sub : ℕ) → 0 < sub → sub ≤ 8 → Sized m index sub 4

-- The parameters from the place `i` on.
abbrev pub HasParameters : Memory → (index i : ℕ) → List MappingParameter → Type 0
HasParameters m index i [] = Unit
HasParameters m index i (p ∷ ps) =
    (m index (i + 1) ≡ some (bytes32 (raw_map p))) × HasParameters m index (i + 1) ps

pub stored_in_self :
    (m : Memory) (index sub : ℕ) (bytes : List ℕ)
    → stored_in m index sub bytes index sub ≡ some bytes
stored_in_self m index sub bytes = ground arith

stored_in_ne :
    (m : Memory) (index sub : ℕ) (bytes : List ℕ) (other : ℕ)
    → other ≢ sub
    → stored_in m index sub bytes index other ≡ m index other
stored_in_ne m index sub bytes other ne = ground (arith, ne)

Sized-stored_in :
    (m : Memory) (index sub : ℕ) (bytes : List ℕ) (other size : ℕ)
    → Sized m index other size
    → (other ≡ sub → length bytes ≡ size)
    → Sized (stored_in m index sub bytes) index other size
Sized-stored_in m index sub bytes other size (old, there, e) same =
    elim (Bool-cases (other == sub)) [
      | inl eq ↦
          let at : other ≡ sub = (==_iff other sub).0 eq in
          (
            bytes,
            ap (stored_in m index sub bytes index) at ∙ stored_in_self m index sub bytes,
            same at,
          )
      | inr ne ↦
          (old, stored_in_ne m index sub bytes other (λ at. ground (arith, ne, at)) ∙ there, e)
    ]

HasMapping-stored_in :
    (m : Memory) (index sub : ℕ) (bytes : List ℕ)
    → HasMapping m index
    → (sub ≡ 0 → length bytes ≡ 1)
    → (0 < sub → length bytes ≡ 4)
    → HasMapping (stored_in m index sub bytes) index
HasMapping-stored_in m index sub bytes h one four = record {
  number = Sized-stored_in m index sub bytes 0 1 h.number (λ e. one (sym e));
  parameter = λ other low high.
      Sized-stored_in m index sub bytes other 4 (h.parameter other low high)
        (λ e. four (omega (arith, e, low)));
}

HasParameters-stored_in :
    (m : Memory) (index i : ℕ) (bytes : List ℕ) (ps : List MappingParameter)
    → HasParameters m index i ps
    → HasParameters (stored_in m index 0 bytes) index i ps
HasParameters-stored_in m index i bytes [] h = tt
HasParameters-stored_in m index i bytes (p ∷ ps) h = (
  stored_in_ne m index 0 bytes (i + 1) (omega arith) ∙ h.0,
  HasParameters-stored_in m index (i + 1) bytes ps h.1,
)

-- The parameters are there, and those before them are as they were.
pub record Written (index i : ℕ) (ps : List MappingParameter) (before m : Memory) : Type 0 where
  pub mapping : HasMapping m index
  pub parameters : HasParameters m index i ps
  pub kept : (sub : ℕ) → sub ≤ i → m index sub ≡ before index sub

next_Written :
    (index i : ℕ) (p : MappingParameter) (ps : List MappingParameter) (before between m : Memory)
    → between ≡ stored_in before index (i + 1) (bytes32 (raw_map p))
    → Written index (i + 1) ps between m
    → Written index i (p ∷ ps) before m
next_Written index i p ps before between m e w = record {
  mapping = w.mapping;
  parameters = (
    w.kept (i + 1) (omega arith)
        ∙ ap (λ n. n index (i + 1)) e
        ∙ stored_in_self before index (i + 1) (bytes32 (raw_map p)),
    w.parameters,
  );
  kept = λ sub le.
      w.kept sub (omega (arith, le))
      ∙ ap (λ n. n index sub) e
      ∙ stored_in_ne before index (i + 1) (bytes32 (raw_map p)) sub (omega (arith, le));
}

-- The fields have their machine types.
pub record IsValid (p : MappingParameter) : Type 0 where
  pub index : p.index < 65536
  pub subindex : p.subindex < 256
  pub length_bits : p.length_bits < 256

abbrev pub AllValid : List MappingParameter → Type 0
AllValid [] = Unit
AllValid (p ∷ ps) = IsValid p × AllValid ps

raw_map-lt : (p : MappingParameter) → raw_map p < 4294967296
unfolding raw_map
raw_map-lt p = omega arith

of_raw-raw_map : (p : MappingParameter) → IsValid p → of_raw (raw_map p) ≡ p
unfolding of_raw raw_map
of_raw-raw_map p v =
    let index : u16 (raw_map p / 65536) ≡ p.index =
      omega (arith, v.index, v.subindex, v.length_bits) in
    let subindex : u8 (raw_map p / 256) ≡ p.subindex =
      omega (arith, v.index, v.subindex, v.length_bits) in
    let bits : u8 (raw_map p) ≡ p.length_bits = omega (arith, v.index, v.subindex, v.length_bits) in
    rw (index, subindex, bits) refl

module _ (c : Client) (k : Keeps c) where
  -- A state that a task ends in without a failure.
  abbrev pub Ends : (x : c.State × Result c.Failure Unit) → (Q : Memory → Type 0) → Type 0
  Ends x Q = (s' : c.State) × (x ≡ (s', ok tt)) × Q (k.memory s')

  pub write_lem :
      (s : c.State) (index sub : ℕ) (bytes : List ℕ)
      → Sized (k.memory s) index sub (length bytes)
      → Ends (write_bytes c index sub bytes s) (λ m. m ≡ stored_in (k.memory s) index sub bytes)
  unfolding write_bytes outcome
  write_lem s index sub bytes (old, there, e) =
      let (s', runs, kept) = k.write_law s index sub old bytes there e in (s', rw runs refl, kept)

  -- One write, and then the rest.
  chain_lem :
      (s : c.State) (index sub : ℕ) (bytes : List ℕ) (f : Unit → Task c Unit) (Q : Memory → Type 0)
      → Sized (k.memory s) index sub (length bytes)
      → ((s' : c.State) → k.memory s' ≡ stored_in (k.memory s) index sub bytes → Ends (f tt s') Q)
      → Ends (chain c (write_bytes c index sub bytes) f s) Q
  unfolding chain continue
  chain_lem s index sub bytes f Q sized rest =
      let (s', runs, kept) = write_lem s index sub bytes sized in rw runs (rest s' kept)

  clear_from_lem :
      (s : c.State) (index left i : ℕ)
      → i + left ≤ 8
      → HasMapping (k.memory s) index
      → Ends (clear_from c index left i s) (λ m. HasMapping m index)
  unfolding clear_from write_uint32
  clear_from_lem s index zero i small h = (s, refl, h)
  clear_from_lem s index (suc left) i small h =
      let e : u8 (i + 1) ≡ i + 1 = omega (arith, small) in
      rw e (
        chain_lem s index (i + 1) (bytes32 0) _ (λ m. HasMapping m index)
          (h.parameter (i + 1) (omega arith) (omega (arith, small)))
          (λ s' kept. clear_from_lem s' index left (i + 1) (omega (arith, small)) (
            subst (λ m. HasMapping m index) (sym kept)
              (HasMapping-stored_in (k.memory s) index (i + 1) (bytes32 0) h
                (λ z. absurd (omega (arith, z))) (λ z. refl)))))

  write_from_lem :
      (s : c.State) (index i : ℕ) (ps : List MappingParameter)
      → i + length ps ≤ 8
      → HasMapping (k.memory s) index
      → Ends (write_from c index i ps s) (Written index i ps (k.memory s))
  unfolding write_from write_uint32
  write_from_lem s index i [] small h =
      (s, refl, record { mapping = h; parameters = tt; kept = λ sub le. refl })
  write_from_lem s index i (p ∷ ps) small h =
      let e : u8 (i + 1) ≡ i + 1 = omega (arith, small) in
      rw e (
        chain_lem s index (i + 1) (bytes32 (raw_map p)) _ (Written index i (p ∷ ps) (k.memory s))
          (h.parameter (i + 1) (omega arith) (omega (arith, small)))
          (λ s' kept.
            let (s'', runs, w) = write_from_lem s' index (i + 1) ps (omega (arith, small)) (
              subst (λ m. HasMapping m index) (sym kept)
                (HasMapping-stored_in (k.memory s) index (i + 1) (bytes32 (raw_map p)) h
                  (λ z. absurd (omega (arith, z))) (λ z. refl))) in
            (
              s'',
              runs,
              next_Written index i p ps (k.memory s) (k.memory s') (k.memory s'') kept w,
            )))

  chain_ends :
      (s : c.State) (x : Task c Unit) (f : Unit → Task c Unit) (Q R : Memory → Type 0)
      → Ends (x s) Q
      → ((s' : c.State) → Q (k.memory s') → Ends (f tt s') R)
      → Ends (chain c x f s) R
  unfolding chain continue
  chain_ends s x f Q R (s', runs, q) rest = rw runs (rest s' q)

  write_count :
      (s : c.State) (index : ℕ) (ps : List MappingParameter) {before : Memory}
      → Written index 0 ps before (k.memory s)
      → Ends
          (write_bytes c index 0 (length ps ∷ []) s)
          (λ m. (m index 0 ≡ some (length ps ∷ [])) × HasParameters m index 0 ps)
  write_count s index ps w =
      let (s', runs, kept) = write_lem s index 0 (length ps ∷ []) w.mapping.number in
      (
        s',
        runs,
        (
          ap (λ m. m index 0) kept ∙ stored_in_self (k.memory s) index 0 (length ps ∷ []),
          subst (λ m. HasParameters m index 0 ps) (sym kept)
              (HasParameters-stored_in (k.memory s) index 0 (length ps ∷ []) ps w.parameters),
        ),
      )

  -- What `WriteMappings` leaves: the number and the parameters.
  write_mappings_lem :
      (s : c.State) (pdo_nb : ℕ) (ps : List MappingParameter)
      → HasMapping (k.memory s) (mapping_index pdo_nb)
      → length ps ≤ 8
      → Ends (write_mappings c pdo_nb ps s) (λ m.
        (m (mapping_index pdo_nb) 0 ≡ some (length ps ∷ []))
        × HasParameters m (mapping_index pdo_nb) 0 ps)
  unfolding write_mappings clear_mappings write_uint8
  write_mappings_lem s pdo_nb ps h few =
      let index = mapping_index pdo_nb in
      let has_mapping = λ (m : Memory). HasMapping m index in
      let filled =
        λ (m : Memory). (m index 0 ≡ some (length ps ∷ [])) × HasParameters m index 0 ps in
      let e : u8 (length ps) ≡ length ps = omega (arith, few) in
      rw e (
        chain_ends s _ _ has_mapping filled
          (chain_lem s index 0 (0 ∷ []) _ has_mapping h.number (λ s1 kept.
            clear_from_lem s1 index 8 0 (omega arith) (
              subst has_mapping (sym kept) (
                HasMapping-stored_in (k.memory s) index 0 (0 ∷ []) h (λ z. refl)
                  (λ z. absurd (omega (arith, z)))))))
          (λ s2 h2.
            chain_ends s2 _ _ (Written index 0 ps (k.memory s2)) filled
              (write_from_lem s2 index 0 ps (omega (arith, few)) h2)
              (λ s3 w. write_count s3 index ps w)))

  -- A read gives what is there.
  read_uint8_lem :
      (s : c.State) (index sub n : ℕ)
      → k.memory s index sub ≡ some (n ∷ [])
      → (s' : c.State) × (read_uint8 c index sub s ≡ (s', ok n)) × (k.memory s' ≡ k.memory s)
  unfolding read_uint8 read_number number
  read_uint8_lem s index sub n there =
      let (s', runs, kept) = k.read_law s index sub (n ∷ []) there in (s', rw runs refl, kept)

  pub read_uint32_lem :
      (s : c.State) (index sub n : ℕ)
      → n < 4294967296
      → k.memory s index sub ≡ some (bytes32 n)
      → (s' : c.State) × (read_uint32 c index sub s ≡ (s', ok n)) × (k.memory s' ≡ k.memory s)
  unfolding read_uint32 read_number number
  read_uint32_lem s index sub n small there =
      let (s', runs, kept) = k.read_law s index sub (bytes32 n) there in
      (s', rw runs (ap (λ m. (s', ok m)) (le32-bytes32 n small)), kept)

  read_first :
      (s s' s'' : c.State) (index left i raw : ℕ) (ps : List MappingParameter)
      → u8 (i + 1) ≡ i + 1
      → read_uint32 c index (i + 1) s ≡ (s', ok raw)
      → read_mappings_from c index left (i + 1) s' ≡ (s'', ok ps)
      → read_mappings_from c index (suc left) i s ≡ (s'', ok (of_raw raw ∷ ps))
  unfolding read_mappings_from chain continue
  read_first s s' s'' index left i raw ps e runs rest = rw (e, runs, rest) refl

  read_mappings_from_lem :
      (s : c.State) (index i : ℕ) (ps : List MappingParameter)
      → i + length ps ≤ 8
      → AllValid ps
      → HasParameters (k.memory s) index i ps
      → (s' : c.State) × (read_mappings_from c index (length ps) i s ≡ (s', ok ps))
  unfolding read_mappings_from chain continue
  read_mappings_from_lem s index i [] small valid h = (s, refl)
  read_mappings_from_lem s index i (p ∷ ps) small (v, valid) (there, h) =
      let e : u8 (i + 1) ≡ i + 1 = omega (arith, small) in
      let (s', runs, kept) = read_uint32_lem s index (i + 1) (raw_map p) (raw_map-lt p) there in
      let (s'', rest) =
        read_mappings_from_lem s' index (i + 1) ps (omega (arith, small)) valid
          (subst (λ m. HasParameters m index (i + 1) ps) (sym kept) h) in
      (
        s'',
        read_first s s' s'' index (length ps) i (raw_map p) ps e runs rest
            ∙ ap (λ q. (s'', ok (q ∷ ps))) (of_raw-raw_map p v),
      )

-- A mapping of up to eight objects that is written to a node that keeps what it is given, in a mapping
-- object of the usual sizes, is read back as it was written.
pub read-write_mappings :
    (c : Client) (k : Keeps c) (s : c.State) (pdo_nb : ℕ) (ps : List MappingParameter)
    → HasMapping (k.memory s) (mapping_index pdo_nb)
    → length ps ≤ 8
    → AllValid ps
    → (s' : c.State) × (s'' : c.State) × (write_mappings c pdo_nb ps s ≡ (s', ok tt))
      × (read_mappings c pdo_nb s' ≡ (s'', ok ps))
unfolding read_mappings read_nb_mappings chain continue
read-write_mappings c k s pdo_nb ps h few valid =
    let (s1, written, (count, parameters)) = write_mappings_lem c k s pdo_nb ps h few in
    let (s2, counted, kept) = read_uint8_lem c k s1 (mapping_index pdo_nb) 0 (length ps) count in
    let (s3, read_all) =
      read_mappings_from_lem c k s2 (mapping_index pdo_nb) 0 ps (omega (arith, few)) valid
        (subst (λ m. HasParameters m (mapping_index pdo_nb) 0 ps) (sym kept) parameters) in
    (s1, s3, written, rw (counted, read_all) refl)
