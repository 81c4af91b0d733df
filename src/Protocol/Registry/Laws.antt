-- ===== src/Protocol/Registry/Laws.antt =====
-- What registering and unregistering a serializer changes.
use logstore_archive.Base.{ℕ, ◌≡◌, ◌≢◌, refl, ap, none, some, [], ◌∷◌, arith, ◌==◌, if◌then◌else◌}
use logstore_archive.Base.Result.{ok, err}
use logstore_archive.Protocol.Message.{SystemMessageType, code}
use logstore_archive.Protocol.Registry.{
  unsupported_version, unsupported_type, Table, get, set, delete, Serializer, serializer_v1,
  Registry, register_serializer, unregister_serializer, get_serializer, loaded, or_empty,
}

module _ {V : Type 0} where
  get-set :
      (m : Table V) (k j : ℕ) (v : V) → get (set m k v) j ≡ (if k == j then some v else get m j)
  unfolding get set
  get-set [] k j v = refl
  get-set ((i, w) ∷ m) k j v = ground (arith, get-set m k j v)

  get-delete : (m : Table V) (k j : ℕ) → get (delete m k) j ≡ (if k == j then none else get m j)
  unfolding get delete
  get-delete [] k j = ground arith
  get-delete ((i, w) ∷ m) k j = ground (arith, get-delete m k j)

-- a registration that succeeds found the pair free, and writes one entry
register_serializer-eq-ok :
    (r r' : Registry) (version type : ℕ) (s : Serializer)
    → register_serializer r version type s ≡ ok r'
    → (get (or_empty (get r version)) type ≡ none)
      × (r' ≡ set r version (set (or_empty (get r version)) type s))
unfolding register_serializer
register_serializer-eq-ok r r' version type s h = ground arith

-- After a registration that succeeds, the lookup of that version and type gives the serializer,
-- and the lookup of any other pair that gave a serializer still gives the same one.
pub get_serializer-register_serializer :
    (r r' : Registry) (version type v t : ℕ) (s found : Serializer)
    → register_serializer r version type s ≡ ok r'
    → get_serializer r v t ≡ ok found
    → (get_serializer r' version type ≡ ok s) × (get_serializer r' v t ≡ ok found)
unfolding get_serializer
get_serializer-register_serializer r r' version type v t s found h g =
    let (free, written) = register_serializer-eq-ok r r' version type s h in
    ground (
      arith,
      ap (λ q. get q version) written,
      ap (λ q. get q v) written,
      get-set r version version (set (or_empty (get r version)) type s),
      get-set r version v (set (or_empty (get r version)) type s),
      get-set (or_empty (get r version)) type type s,
      get-set (or_empty (get r version)) type t s,
    )

-- A pair that was just registered can be unregistered, and its lookup then fails with an
-- unsupported type.
pub unregister-register :
    (r r' : Registry) (version type : ℕ) (s : Serializer)
    → register_serializer r version type s ≡ ok r'
    → (r'' : Registry) × (unregister_serializer r' version type ≡ ok r'')
      × (get_serializer r'' version type ≡ err unsupported_type)
unfolding unregister_serializer get_serializer
unregister-register r r' version type s h =
    let (free, written) = register_serializer-eq-ok r r' version type s h in
    let by_type : Table Serializer = set (or_empty (get r version)) type s in
    (
      set r' version (delete by_type type),
      ground (arith, ap (λ q. get q version) written, get-set r version version by_type),
      ground
          (arith, get-set r' version version (delete by_type type), get-delete by_type type type),
    )

-- Once the seven modules are loaded, each type has its serializer of version 1.
pub get_serializer-loaded :
    (r : Registry) (t : SystemMessageType)
    → loaded ≡ ok r
    → get_serializer r 1 (code t) ≡ ok (serializer_v1 t)
unfolding loaded get_serializer get
get_serializer-loaded r SystemMessageType.query_request h = ground arith
get_serializer-loaded r t h = ground arith

pub get_serializer-other :
    (v t : ℕ) (r : Registry)
    → loaded ≡ ok r
    → v ≢ 1
    → get_serializer r v t ≡ err unsupported_version
unfolding loaded get_serializer get
get_serializer-other v t r h n = ground arith
