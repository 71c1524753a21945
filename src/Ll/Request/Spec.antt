-- ===== src/Ll/Request/Spec.antt =====
-- What a packet means, stated with no parser, and `try_from` of src/ll/request.rs against it.
use fuse_rs.Base.{
  ℕ, ◌≤◌, ◌<◌, ◌≡◌, refl, sym, ap, ◌∙◌, ◌↔◌, inl, inr, List, arith, ltb, length, Option-cases,
  Bool-cases, ltb→lt, ltb_false→le, le→ltb_false,
}
use mathlib.Core.Path.{subst}
use fuse_rs.Base.Result.{Result, ok, err}
use fuse_rs.Abi.Layout.{size_of}
use fuse_rs.Abi.Structs.{FuseInHeader, fuse_in_header_struct}
use fuse_rs.Abi.Opcode.{FuseOpcode, code, code-try_from, try_from-code}
use fuse_rs.Abi.Opcode
use fuse_rs.Ll.Argument.{ArgumentIterator, new, len}
use fuse_rs.Ll.Argument.Laws.{from, fetch_cases}
use fuse_rs.Ll.Operation.{Operation, opcode, parse}
use fuse_rs.Ll.Operation.Grammar.{StructAt, Reads}
use fuse_rs.Ll.Operation.Complete.{parse-none, parse_iff, parse-Reads, fetch-StructAt}
use fuse_rs.Ll.Operation.Sound.{take-StructAt}
use fuse_rs.Abi.Layout.{to_bytes}
use fuse_rs.Base.{◌++◌}
use fuse_rs.Ll.Operation.Wire.{InRange, IsWire, encode, to_bytes-StructAt, encode-Reads}
use fuse_rs.Ll.Request.{
  Request, RequestError, short_read_header, unknown_operation, short_read, insufficient_data,
  try_from, parse_body,
}

-- `args` is what follows the header in the packet.
abbrev pub HeaderAt : List ℕ → FuseInHeader → List ℕ → Type 0
HeaderAt bs h args = StructAt bs h args

-- The packet holds the request: its header, then the arguments of an operation that the header's
-- opcode asks for; and the packet is as long as the header says, or longer.
abbrev pub Holds : List ℕ → Request → Type 0
Holds bs r =
    (args : List ℕ) × (rest : List ℕ) × HeaderAt bs r.header args
    × (code (opcode r.operation) ≡ r.header.opcode)
    × (r.header.len ≤ length bs)
    × Reads r.operation args rest

-- What each result says of the packet.
abbrev pub Explains : List ℕ → Result RequestError Request → Type 0
Explains bs (ok r) = Holds bs r
Explains bs (err (short_read_header n)) =
    (n ≡ length bs) × (length bs < size_of fuse_in_header_struct.layout)
Explains bs (err (unknown_operation n)) =
    (h : FuseInHeader) × (args : List ℕ) × HeaderAt bs h args
    × (n ≡ h.opcode)
    × (¬ ((oc : FuseOpcode) × (code oc ≡ n)))
Explains bs (err (short_read have want)) =
    (h : FuseInHeader) × (args : List ℕ) × (oc : FuseOpcode) × HeaderAt bs h args
    × (code oc ≡ h.opcode)
    × (have ≡ length bs)
    × (want ≡ h.len)
    × (have < want)
Explains bs (err insufficient_data) =
    (h : FuseInHeader) × (args : List ℕ) × (oc : FuseOpcode) × HeaderAt bs h args
    × (code oc ≡ h.opcode)
    × (h.len ≤ length bs)
    × (¬ ((op : Operation) × (rest : List ℕ) × (opcode op ≡ oc) × Reads op args rest))

parse_body-Explains :
    (bs : List ℕ) (h : FuseInHeader) (it : ArgumentIterator)
    → HeaderAt bs h it.bytes
    → Explains bs (parse_body (length bs) h it)
unfolding parse_body
parse_body-Explains bs h it at = elim (Option-cases (Opcode.try_from h.opcode)) [
  | inl e ↦ rw e (
    h,
    it.bytes,
    at,
    refl,
    λ (oc, k). absurd (ground (arith, try_from-code oc, ap Opcode.try_from k)),
  )
  | inr (oc, e) ↦ elim (Bool-cases (ltb (length bs) h.len)) [
    | inl short ↦
        rw (e, short) (h, it.bytes, oc, at, code-try_from h.opcode e, refl, refl, ltb→lt _ _ short)
    | inr long ↦ elim (Option-cases (parse oc it).0) [
      | inl failed ↦
          rw (e, long, failed)
            (
              h,
              it.bytes,
              oc,
              at,
              code-try_from h.opcode e,
              ltb_false→le _ _ long,
              λ (op, rest, same, reads). parse-none oc it op rest failed same reads,
            )
      | inr (op, found) ↦
          let it' = (parse oc it).1 in
          let read = (parse_iff oc it it' op).0 (ap (λ o. (o, it')) found) in
          rw (e, long, found)
            (
              it.bytes,
              it'.bytes,
              at,
              ap code read.0 ∙ code-try_from h.opcode e,
              ltb_false→le _ _ long,
              read.1,
            )
    ]
  ]
]

-- Whatever `try_from` returns for a packet is what the packet holds: a request that stands there,
-- too few bytes for a header, an opcode that no operation has, a packet shorter than its header
-- says, or arguments that no operation of the opcode has.
pub try_from-Explains : (bs : List ℕ) → Explains bs (try_from bs)
unfolding try_from new len
try_from-Explains bs = elim (fetch_cases ⦃s = fuse_in_header_struct⦄ (from bs)) [
  | inl (short, e) ↦ rw e (refl, short)
  | inr (long, e) ↦ rw e (parse_body-Explains bs _ _ (take-StructAt bs long))
]

-- `try_from` returns a request exactly when the packet holds it: header, opcode and arguments,
-- with at least as many bytes as the header says.
pub try_from-ok_iff : (bs : List ℕ) (r : Request) → (try_from bs ≡ ok r) ↔ Holds bs r
unfolding try_from parse_body new
try_from-ok_iff bs r = (
  λ e. subst (Explains bs) e (try_from-Explains bs),
  λ (args, rest, at, c, long, reads). rw (
    fetch-StructAt bs args r.header at,
    ap Opcode.try_from (sym c) ∙ try_from-code (opcode r.operation),
    le→ltb_false (length bs) r.header.len long,
    parse-Reads r.operation args rest reads,
  ),
)

-- A header in range, followed by the arguments of an operation as the kernel sends them, is parsed
-- to that header and that operation, when the header has the operation's opcode and promises no
-- more bytes than there are.
pub try_from-encode :
    (h : FuseInHeader) (op : Operation) (rest : List ℕ)
    → InRange h
    → IsWire op rest
    → code (opcode op) ≡ h.opcode
    → h.len ≤ length (to_bytes h ++ encode op rest)
    → try_from (to_bytes h ++ encode op rest) ≡ ok (record { header = h; operation = op })
try_from-encode h op rest valid wire c long =
    (try_from-ok_iff (to_bytes h ++ encode op rest) (record { header = h; operation = op })).1 (
      encode op rest,
      rest,
      to_bytes-StructAt h (encode op rest) valid,
      c,
      long,
      encode-Reads op rest wire,
    )
