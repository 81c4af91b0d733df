-- ===== src/Client/NetworkValidation/QueryInput/Laws.antt =====
-- hasIncompatibleQueryInput against the options that a query stands for, and against the requests
-- that the serializer of packages/protocol/src/system/QueryRequestSerializerV1.ts lets through.
use logstore_archive.Base.{
  inl, inr, ℕ, String, ◌≡◌, ◌↔◌, refl, Bool, true, false, not, ◌||◌, ◌⊎◌, arith, eq_iff,
  if◌then◌else◌,
}
use logstore_archive.Base.Result.{Result, ok}
use logstore_archive.Protocol.Js.{Opt}
use logstore_archive.Protocol.Message.{
  QueryType, QueryOptions, last_options, from_options, range_options, QueryRequest,
}
use logstore_archive.Protocol.Wire.Arrival.{Fits, wire_options, null_of}
use logstore_archive.Client.NetworkValidation.QueryInput.{
  HttpQuery, last_query, from_query, range_query, QueryInputPayload, PropertyError, opt_num_eq,
  opt_str_eq, type_eq, differs, has_incompatible_query_input,
}

-- The options of the request that answers a query, and their kind.
abbrev pub asked : HttpQuery → QueryOptions
asked (last_query n) = last_options n
asked (from_query t s p) =
    from_options (record { timestamp = t; sequence_number = s }) p Opt.undefined
asked (range_query t u s r p c) =
    range_options (record { timestamp = t; sequence_number = s })
      (record { timestamp = u; sequence_number = r }) c p Opt.undefined

-- The options without their `limit`, which a query over HTTP does not have.
abbrev pub unlimited : QueryOptions → QueryOptions
unlimited (last_options n) = last_options n
unlimited (from_options f p _) = from_options f p Opt.undefined
unlimited (range_options f t c p _) = range_options f t c p Opt.undefined

-- The query leaves out a property that its options may have.
abbrev pub LeavesOut : HttpQuery → Type 0
LeavesOut (last_query _) = ⊥
LeavesOut (from_query _ s p) = (s ≡ Opt.undefined) ⊎ (p ≡ Opt.undefined)
LeavesOut (range_query _ _ s r p c) =
    (s ≡ Opt.undefined) ⊎ (r ≡ Opt.undefined) ⊎ (p ≡ Opt.undefined) ⊎ (c ≡ Opt.undefined)

abbrev pub FitsQuery : QueryType → HttpQuery → Type 0
FitsQuery type q = Fits type (asked q)

opt_num_eq_lem : (x y : Opt ℕ) → opt_num_eq x y ≡ true ↔ x ≡ y
unfolding opt_num_eq
opt_num_eq_lem Opt.undefined Opt.undefined = ground arith
opt_num_eq_lem Opt.undefined Opt.null = ground arith
opt_num_eq_lem Opt.undefined (Opt.given n) = ground arith
opt_num_eq_lem Opt.null Opt.undefined = ground arith
opt_num_eq_lem Opt.null Opt.null = ground arith
opt_num_eq_lem Opt.null (Opt.given n) = ground arith
opt_num_eq_lem (Opt.given m) Opt.undefined = ground arith
opt_num_eq_lem (Opt.given m) Opt.null = ground arith
opt_num_eq_lem (Opt.given m) (Opt.given n) = ground arith

opt_str_eq_lem : (x y : Opt String) → opt_str_eq x y ≡ true ↔ x ≡ y
unfolding opt_str_eq
opt_str_eq_lem Opt.undefined Opt.undefined = ground arith
opt_str_eq_lem Opt.undefined Opt.null = ground arith
opt_str_eq_lem Opt.undefined (Opt.given n) = ground arith
opt_str_eq_lem Opt.null Opt.undefined = ground arith
opt_str_eq_lem Opt.null Opt.null = ground arith
opt_str_eq_lem Opt.null (Opt.given n) = ground arith
opt_str_eq_lem (Opt.given m) Opt.undefined = ground arith
opt_str_eq_lem (Opt.given m) Opt.null = ground arith
opt_str_eq_lem (Opt.given m) (Opt.given n) = ground (arith, eq_iff m n)

-- What the comparisons of a range say together.
range_tests :
    (a b c d e f : Bool)
    → ◌≡◌ {A = Result PropertyError Bool}
        (if not a then ok true else ok (not b || not c || not d || not e || not f))
        (ok false)
      ↔ (a ≡ true) × (b ≡ true) × (c ≡ true) × (d ≡ true) × (e ≡ true) × (f ≡ true)
range_tests false b c d e f = ground arith
range_tests true false c d e f = ground arith
range_tests true true false d e f = ground arith
range_tests true true true false e f = ground arith
range_tests true true true true false f = ground arith
range_tests true true true true true false = ground arith
range_tests true true true true true true = ground arith

given_inj : {m n : ℕ} → Opt.given m ≡ Opt.given n → m ≡ n
given_inj h = cc

differs-false :
    (type : QueryType) (q : HttpQuery) (o : QueryOptions)
    → FitsQuery type q
    → Fits type o
    → differs type q o ≡ ok false ↔ unlimited o ≡ asked q
differs-false QueryType.last (last_query n) (last_options m) h k =
    ground (arith, opt_num_eq_lem (Opt.given n) (Opt.given m))
differs-false QueryType.from (from_query t s p) (from_options f r l) h k = ground (
  arith,
  opt_num_eq_lem (Opt.given t) (Opt.given f.timestamp),
  opt_num_eq_lem s f.sequence_number,
  opt_str_eq_lem p r,
)
differs-false QueryType.range (range_query t u s r p c) (range_options f g d e l) h k =
    let (tests, testsb) =
      range_tests (opt_num_eq (Opt.given t) (Opt.given f.timestamp))
        (opt_num_eq (Opt.given u) (Opt.given g.timestamp)) (opt_num_eq s f.sequence_number)
        (opt_num_eq r g.sequence_number) (opt_str_eq p e) (opt_str_eq c d) in
    let (ft, ftb) = opt_num_eq_lem (Opt.given t) (Opt.given f.timestamp) in
    let (gt, gtb) = opt_num_eq_lem (Opt.given u) (Opt.given g.timestamp) in
    let (fs, fsb) = opt_num_eq_lem s f.sequence_number in
    let (gs, gsb) = opt_num_eq_lem r g.sequence_number in
    let (ps, psb) = opt_str_eq_lem p e in
    let (cs, csb) = opt_str_eq_lem c d in
    (
      λ x.
          let (a1, a2, a3, a4, a5, a6) = tests x in
          let t1 : t ≡ f.timestamp = given_inj (ft a1) in
          let t2 : u ≡ g.timestamp = given_inj (gt a2) in
          let t3 = fs a3 in let t4 = gs a4 in let t5 = ps a5 in let t6 = cs a6 in cc,
      λ x.
          let y : range_options f g d e Opt.undefined
              ≡ range_options (record { timestamp = t; sequence_number = s })
                  (record { timestamp = u; sequence_number = r }) c p Opt.undefined =
            x in
          testsb (ftb cc, gtb cc, fsb cc, gsb cc, psb cc, csb cc),
    )
differs-false QueryType.last (last_query n) (from_options f r l) h k = elim k [ ]
differs-false QueryType.last (last_query n) (range_options f g d e l) h k = elim k [ ]
differs-false QueryType.last (from_query t s p) o h k = elim h [ ]
differs-false QueryType.last (range_query t u s r p c) o h k = elim h [ ]
differs-false QueryType.from (last_query n) o h k = elim h [ ]
differs-false QueryType.from (from_query t s p) (last_options m) h k = elim k [ ]
differs-false QueryType.from (from_query t s p) (range_options f g d e l) h k = elim k [ ]
differs-false QueryType.from (range_query t u s r p c) o h k = elim h [ ]
differs-false QueryType.range (last_query n) o h k = elim h [ ]
differs-false QueryType.range (from_query t s p) o h k = elim h [ ]
differs-false QueryType.range (range_query t u s r p c) (last_options m) h k = elim k [ ]
differs-false QueryType.range (range_query t u s r p c) (from_options f e l) h k = elim k [ ]

type_eq-cases :
    (a b : QueryType) → ((a ≡ b) × (type_eq a b ≡ true)) ⊎ ((¬ (a ≡ b)) × (type_eq a b ≡ false))
type_eq-cases QueryType.last QueryType.last = ground arith
type_eq-cases QueryType.last QueryType.from = ground arith
type_eq-cases QueryType.last QueryType.range = ground arith
type_eq-cases QueryType.from QueryType.last = ground arith
type_eq-cases QueryType.from QueryType.from = ground arith
type_eq-cases QueryType.from QueryType.range = ground arith
type_eq-cases QueryType.range QueryType.last = ground arith
type_eq-cases QueryType.range QueryType.from = ground arith
type_eq-cases QueryType.range QueryType.range = ground arith

null_of_not_undefined : {A : Type 0} (o : Opt A) → ¬ (null_of o ≡ Opt.undefined)
null_of_not_undefined Opt.undefined = ground arith
null_of_not_undefined Opt.null = ground arith
null_of_not_undefined (Opt.given a) = ground arith

Fits-subst : {a b : QueryType} (o : QueryOptions) → a ≡ b → Fits b o → Fits a o
Fits-subst o e k = rw e k

-- No option that arrives is left out: JSON has made it null.
differs_wire :
    (type : QueryType) (q : HttpQuery) (o : QueryOptions)
    → LeavesOut q
    → ¬ (unlimited (wire_options o) ≡ asked q)
differs_wire type (last_query n) o l h = elim l [ ]
differs_wire type (from_query t s p) (last_options n) l h = ground arith
differs_wire type (from_query t s p) (range_options f g d e m) l h = ground arith
differs_wire type (from_query t s p) (from_options f r m) l h =
    ground (arith, null_of_not_undefined r, null_of_not_undefined f.sequence_number)
differs_wire type (range_query t u s r p c) (last_options n) l h = ground arith
differs_wire type (range_query t u s r p c) (from_options f e m) l h = ground arith
differs_wire type (range_query t u s r p c) (range_options f g d e m) l h = ground (
  arith,
  null_of_not_undefined d,
  null_of_not_undefined e,
  null_of_not_undefined f.sequence_number,
  null_of_not_undefined g.sequence_number,
)

Fits-wire_options : (type : QueryType) (o : QueryOptions) → Fits type o → Fits type (wire_options o)
Fits-wire_options QueryType.last (last_options n) h = h
Fits-wire_options QueryType.last (from_options f p l) h = h
Fits-wire_options QueryType.last (range_options f t c p l) h = h
Fits-wire_options QueryType.from (last_options n) h = h
Fits-wire_options QueryType.from (from_options f p l) h = h
Fits-wire_options QueryType.from (range_options f t c p l) h = h
Fits-wire_options QueryType.range (last_options n) h = h
Fits-wire_options QueryType.range (from_options f p l) h = h
Fits-wire_options QueryType.range (range_options f t c p l) h = h

if-ok :
    (a b : Bool)
    → (c : Bool) × (◌≡◌ {A = Result PropertyError Bool} (if not a then ok true else ok b) (ok c))
if-ok false b = (true, refl)
if-ok true b = (b, refl)

-- Options that fit have the properties that the comparison reads.
differs-ok :
    (type : QueryType) (q : HttpQuery) (o : QueryOptions)
    → Fits type o
    → (b : Bool) × (differs type q o ≡ ok b)
differs-ok QueryType.last q o h = (_, refl)
differs-ok QueryType.from q (from_options f p l) h = (_, refl)
differs-ok QueryType.from q (range_options f t c p l) h = (_, refl)
differs-ok QueryType.from q (last_options n) h = elim h [ ]
differs-ok QueryType.range q (range_options f t c p l) h = if-ok _ _
differs-ok QueryType.range q (last_options n) h = elim h [ ]
differs-ok QueryType.range q (from_options f p l) h = elim h [ ]

module _ (to_stream_part_id : String → ℕ → String) where
  -- Where the query and the request have options of the kinds that their query types name, the
  -- request is found compatible exactly if it has the query's type and stream part and its
  -- options, but for a limit, are the ones the query asks for.
  pub incompatible_iff :
      (input : QueryInputPayload) (request : QueryRequest)
      → FitsQuery input.query_type input.query
      → Fits request.query_type request.query_options
      → has_incompatible_query_input to_stream_part_id input request ≡ ok false
        ↔ (input.query_type ≡ request.query_type)
          × (input.stream_part_id ≡ to_stream_part_id request.stream_id request.partition)
          × (unlimited request.query_options ≡ asked input.query)
  unfolding has_incompatible_query_input
  incompatible_iff input request h k = elim (type_eq-cases input.query_type request.query_type) [
    | inl (e, t) ↦
        let fits = Fits-subst request.query_options e k in
        ground (
          arith,
          eq_iff input.stream_part_id (to_stream_part_id request.stream_id request.partition),
          differs-false input.query_type input.query request.query_options h fits,
        )
    | inr (n, f) ↦ ground (arith)
  ]

  answers :
      (input : QueryInputPayload) (request : QueryRequest)
      → Fits request.query_type request.query_options
      → (has_incompatible_query_input to_stream_part_id input request ≡ ok true)
        ⊎ (has_incompatible_query_input to_stream_part_id input request ≡ ok false)
  unfolding has_incompatible_query_input
  answers input request k = elim (type_eq-cases input.query_type request.query_type) [
    | inl (e, t) ↦
        let (b, d) =
          differs-ok input.query_type input.query request.query_options
            (Fits-subst request.query_options e k) in
        ground (arith)
    | inr (n, f) ↦ ground (arith)
  ]

  -- A query that leaves out an optional sequence number, publisher or chain holds every request
  -- for incompatible as it arrives over the wire, also the one that was made for it, if the
  -- options of both are of the kinds that their query types name.
  pub left_out-is_incompatible :
      (input : QueryInputPayload) (request : QueryRequest)
      → FitsQuery input.query_type input.query
      → Fits request.query_type request.query_options
      → LeavesOut input.query
      → has_incompatible_query_input to_stream_part_id input
          (record request { query_options = wire_options request.query_options })
        ≡ ok true
  left_out-is_incompatible input request h k l =
      let arrived = record request { query_options = wire_options request.query_options } in
      let fits = Fits-wire_options request.query_type request.query_options k in
      elim (answers input arrived fits) [
        | inl t ↦ t
        | inr f ↦
            let (_, _, e) = (incompatible_iff input arrived h fits).0 f in
            elim (differs_wire input.query_type input.query request.query_options l e) [ ]
      ]
