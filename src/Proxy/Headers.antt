-- ===== src/Proxy/Headers.antt =====
-- The headers that crates/solvela-client-proxy/src/proxy.rs passes on, in both directions.
use mathlib.Core.List.{foldl, Memᴰ}
use solvela_client.Base.{
  String, false, Option, none, some, List, [], ◌∷◌, ◌≡◌, ◌≢◌, ◌↔◌, inl, inr, refl, arith, any, All,
  Bool-cases, ◌==◌, string_eq, nat_eq, if◌then◌else◌, ◌⊎◌, ap,
}
use solvela_client.Base.Dict.{Dict, lookup, lookup-insert, lookup-nil, NodupKeys, insert-NodupKeys}
use solvela_client.Text.{ascii_lowercase}
use solvela_client.Net.{HttpResponse}
use solvela_client.Proxy.{
  HeaderValue, visible, opaque_bytes, forward_headers, stripped_request_headers,
  stripped_response_headers, copy_header, build_passthrough_response,
}

-- The name of the header, in whatever letter case, is not among the given ones.
abbrev pub IsKept : List String → String → Type 0
IsKept stripped name = All (λ s. ascii_lowercase name ≢ s) stripped

IsKept-iff :
    (stripped : List String) (name : String)
    → (any (λ s. ascii_lowercase name == s) stripped ≡ false) ↔ IsKept stripped name
IsKept-iff [] name = (λ h. tt, λ h. refl)
IsKept-iff (s ∷ stripped) name =
    let (to, from) = IsKept-iff stripped name in
    (λ h. (ground arith, to (ground arith)), λ (ne, h). let rest = from h in ground arith)

-- Nothing that is passed on to the gateway is named like a stripped header.
pub forward_headers-IsKept :
    (headers : List (String × HeaderValue))
    → All (λ h. IsKept stripped_request_headers h.0) (forward_headers headers)
unfolding forward_headers
forward_headers-IsKept [] = tt
forward_headers-IsKept ((name, value) ∷ headers) =
    let later = forward_headers-IsKept headers in
    elim (Bool-cases (any (λ s. ascii_lowercase name == s) stripped_request_headers)) [
      | inl stripped ↦ rw stripped later
      | inr kept ↦
          rw kept
            (elim value
              as (λ v.
                All (λ h. IsKept stripped_request_headers h.0)
                  (elim v [
                    | visible t ↦ (name, t) ∷ forward_headers headers
                    | opaque_bytes b ↦ forward_headers headers
                  ])) [
                    | visible t ↦ ((IsKept-iff stripped_request_headers name).0 kept, later)
                    | opaque_bytes b ↦ later
                  ])
    ]

-- One header in front of the others.
forward_headers-cons :
    (name : String) (value : HeaderValue) (rest : List (String × HeaderValue)) (n v : String)
    → Memᴰ (n, v) (forward_headers ((name, value) ∷ rest)) ↔ (
        ((n ≡ name) × (visible v ≡ value) × IsKept stripped_request_headers n)
        ⊎ Memᴰ (n, v) (forward_headers rest))
unfolding forward_headers
forward_headers-cons name (opaque_bytes b) rest n v =
    elim (Bool-cases (any (λ s. ascii_lowercase name == s) stripped_request_headers)) [
      | inl stripped ↦
          rw stripped
            (λ m. inr m, λ why. elim why [ inl (_, e, _) ↦ absurd (ground arith) | inr m ↦ m ])
      | inr kept ↦
          rw kept
            (λ m. inr m, λ why. elim why [ inl (_, e, _) ↦ absurd (ground arith) | inr m ↦ m ])
    ]
forward_headers-cons name (visible t) rest n v =
    let (to, from) = IsKept-iff stripped_request_headers name in
    elim (Bool-cases (any (λ s. ascii_lowercase name == s) stripped_request_headers)) [
      | inl stripped ↦ rw stripped (
        λ m. inr m,
        λ why. elim why [
          | inl (same, _, fine) ↦
              let fine' : IsKept stripped_request_headers name = rw same at fine in
              let unstripped = from fine' in absurd (ground arith)
          | inr m ↦ m
        ],
      )
      | inr kept ↦ rw kept (
        λ m. front m (to kept),
        λ why. elim why [ inl (same, e, _) ↦ Memᴰ.head (pair same e) | inr m ↦ Memᴰ.tail m ],
      )
    ]
  where
    pair : n ≡ name → visible v ≡ visible t → ◌≡◌ {A = String × String} (n, v) (name, t)
    pair same e = let same' : v ≡ t = ground arith in rw (same, same') refl

    front :
        Memᴰ (n, v) ((name, t) ∷ forward_headers rest)
        → IsKept stripped_request_headers name
        → ((n ≡ name) × (visible v ≡ visible t) × IsKept stripped_request_headers n)
          ⊎ Memᴰ (n, v) (forward_headers rest)
    front (Memᴰ.head e) fine =
        let same : n ≡ name = ap (λ h. h.0) e in
        let fine' : IsKept stripped_request_headers n = rw same fine in
        inl (same, ap (λ h. visible h.1) e, fine')
    front (Memᴰ.tail m) fine = inr m

forward_headers-nil : (n v : String) → Memᴰ (n, v) (forward_headers []) → ⊥
unfolding forward_headers
forward_headers-nil n v m = elim m [ ]

-- A header is passed on to the gateway exactly if it is one of the caller's, its value is visible
-- ASCII, and its name, in whatever letter case, is none of host, connection, transfer-encoding and
-- payment-signature.
pub forward_headers-Mem :
    (headers : List (String × HeaderValue)) (n v : String)
    → Memᴰ (n, v) (forward_headers headers)
      ↔ (Memᴰ (n, visible v) headers × IsKept stripped_request_headers n)
forward_headers-Mem [] n v = (λ m. absurd (forward_headers-nil n v m), λ (m, _). elim m [ ])
forward_headers-Mem ((name, value) ∷ rest) n v =
    let (to, from) = forward_headers-cons name value rest n v in
    let (rest_to, rest_from) = forward_headers-Mem rest n v in
    (
      λ m. elim (to m) [
        | inl (same, e, fine) ↦ (Memᴰ.head (ground arith), fine)
        | inr later ↦ (Memᴰ.tail (rest_to later).0, (rest_to later).1)
      ],
      λ (m, fine). from (place m fine rest_from),
    )
  where
    place :
        Memᴰ (n, visible v) ((name, value) ∷ rest)
        → IsKept stripped_request_headers n
        → (Memᴰ (n, visible v) rest × IsKept stripped_request_headers n
            → Memᴰ (n, v) (forward_headers rest))
        → ((n ≡ name) × (visible v ≡ value) × IsKept stripped_request_headers n)
          ⊎ Memᴰ (n, v) (forward_headers rest)
    place (Memᴰ.head e) fine later = inl (ap (λ h. h.0) e, ap (λ h. h.1) e, fine)
    place (Memᴰ.tail m) fine later = inr (later (m, fine))

-- The last value of a header in a response of the gateway.
abbrev pub last_value : String → Option String → String × String → Option String
last_value name before (other, value) = if other == name then some value else before

copy_headers-lookup :
    (name : String) (headers : List (String × String)) (copied : Dict String String)
    (before : Option String)
    → IsKept stripped_response_headers name
    → lookup name copied ≡ before
    → lookup name (foldl copy_header copied headers) ≡ foldl (last_value name) before headers
unfolding copy_header
copy_headers-lookup name [] copied before kept h = h
copy_headers-lookup name ((other, value) ∷ headers) copied before kept h =
    copy_headers-lookup name headers (copy_header copied (other, value))
      (last_value name before (other, value)) kept
      (let fine = (IsKept-iff stripped_response_headers name).1 kept in
        ground (arith, lookup-insert other name value copied))

copy_headers-NodupKeys :
    (headers : List (String × String)) (copied : Dict String String)
    → NodupKeys copied
    → NodupKeys (foldl copy_header copied headers)
unfolding copy_header
copy_headers-NodupKeys [] copied h = h
copy_headers-NodupKeys ((name, value) ∷ headers) copied h =
    copy_headers-NodupKeys headers (copy_header copied (name, value))
      (elim (Bool-cases (any (λ s. ascii_lowercase name == s) stripped_response_headers)) [
        | inl stripped ↦ rw stripped h
        | inr kept ↦ rw kept (insert-NodupKeys name value copied h)
      ])

-- A response of the gateway that is passed on has each header once; and for a name that is not
-- stripped it has the last value that the gateway gave, or none if the gateway gave none.
pub build_passthrough_response-lookup :
    (resp : HttpResponse)
    → NodupKeys (build_passthrough_response resp).headers
      × ((name : String)
          → IsKept stripped_response_headers name
          → lookup name (build_passthrough_response resp).headers
            ≡ foldl (last_value name) none resp.headers)
unfolding build_passthrough_response
build_passthrough_response-lookup resp = (
  copy_headers-NodupKeys resp.headers [] tt,
  λ name kept. copy_headers-lookup name resp.headers [] none kept (lookup-nil name),
)
