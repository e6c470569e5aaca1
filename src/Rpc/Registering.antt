-- ===== src/Rpc/Registering.antt =====
-- What a registered service changes: rpc/rpcprovider.cpp, `NotifyService`.
use rpc_storage_cpp.Common.{
  if◌then◌else◌, Bool-cases, Bytes, bytes_eq, bytes_eq_refl, bytes_eq→eq, ◌≡◌, refl, ap, ◌∙◌, inl,
  inr, ◌||◌, none, some, List, [], ◌∷◌, ◌++◌, arith,
}
use rpc_storage_cpp.Rpc.{RpcHeader}
use rpc_storage_cpp.Rpc.Provider.{
  no_method, call_service, Service, RpcProvider, dispatch, ServiceInfo, insert_methods,
  notify_service, find_service, has_name,
}

has_name-append :
    (m : Bytes) (as_ bs : List Bytes) → has_name m (as_ ++ bs) ≡ (has_name m as_ || has_name m bs)
unfolding has_name
has_name-append m [] bs = refl
has_name-append m (a ∷ as_) bs = ground (arith, has_name-append m as_ bs)

has_name-insert_methods :
    (m : Bytes) (known names : List Bytes)
    → has_name m (insert_methods known names) ≡ (has_name m known || has_name m names)
unfolding has_name insert_methods
has_name-insert_methods m known [] = ground arith
has_name-insert_methods m known (n ∷ ns) = elim (Bool-cases (has_name n known)) [
  | inl e ↦
      ap (λ b. has_name m (insert_methods (if b then known else known ++ n ∷ []) ns)) e
      ∙ has_name-insert_methods m known ns
      ∙ ground (arith, e, bytes_eq→eq n m)
  | inr e ↦
      ap (λ b. has_name m (insert_methods (if b then known else known ++ n ∷ []) ns)) e
      ∙ has_name-insert_methods m (known ++ n ∷ []) ns
      ∙ ground (arith, has_name-append m known (n ∷ []))
]

has_name-all :
    (m : Bytes) (names : List Bytes) → has_name m (insert_methods [] names) ≡ has_name m names
unfolding has_name
has_name-all m names = has_name-insert_methods m [] names ∙ ground arith

module _ {Req Resp : Type 0} where
  find_service-append :
      (name n : Bytes) (i : ServiceInfo Req Resp) (as_ : List (Bytes × ServiceInfo Req Resp))
      → find_service n as_ ≡ none
      → find_service name (as_ ++ (n, i) ∷ [])
        ≡ (if bytes_eq n name then some i else find_service name as_)
  unfolding find_service
  find_service-append name n i [] e = refl
  find_service-append name n i ((k, j) ∷ as_) e = elim (Bool-cases (bytes_eq k n)) [
    | inl f ↦ absurd (ground (arith, e, f))
    | inr f ↦
        let rest : find_service n as_ ≡ none = ground (arith, e, f) in
        ground (
          arith,
          find_service-append name n i as_ rest,
          bytes_eq→eq n name,
          bytes_eq→eq k name,
          bytes_eq_refl name,
          f,
        )
  ]

  notify_service-new :
      (p : RpcProvider Req Resp) (s : Service Req Resp)
      → find_service s.name p.service_map ≡ none
      → notify_service p s ≡ record {
        service_map =
            p.service_map
            ++ (s.name, record { service = s; method_map = insert_methods [] s.methods }) ∷ [];
      }
  unfolding notify_service
  notify_service-new p s e = rw (notify_service, e) refl

  dispatch-found :
      (p : RpcProvider Req Resp) (h : RpcHeader) (args : Bytes) (i : ServiceInfo Req Resp)
      → find_service h.service_name p.service_map ≡ some i
      → dispatch p h args ≡ (
          if has_name h.method_name i.method_map
          then call_service i.service h.method_name args
          else no_method)
  unfolding dispatch
  dispatch-found p h args i e = rw (dispatch, e) refl

  dispatch-same :
      (p q : RpcProvider Req Resp) (h : RpcHeader) (args : Bytes)
      → find_service h.service_name p.service_map ≡ find_service h.service_name q.service_map
      → dispatch p h args ≡ dispatch q h args
  unfolding dispatch
  dispatch-same p q h args e = rw (dispatch, e) refl

  -- Once a service is registered under a new name, a request for this name goes to it if it has the
  -- method, and is refused otherwise; and all other requests are handled as before.
  pub notify_service-dispatch :
      (p : RpcProvider Req Resp) (s : Service Req Resp) (h : RpcHeader) (args : Bytes)
      → find_service s.name p.service_map ≡ none
      → dispatch (notify_service p s) h args ≡ (
          if bytes_eq s.name h.service_name
          then (if has_name h.method_name s.methods
              then call_service s h.method_name args
              else no_method)
          else dispatch p h args)
  notify_service-dispatch p s h args e =
      let info : ServiceInfo Req Resp = record {
        service = s;
        method_map = insert_methods [] s.methods;
      } in
      let q : RpcProvider Req Resp = record {
        service_map = p.service_map ++ (s.name, info) ∷ [];
      } in
      let at = find_service-append h.service_name s.name info p.service_map e in
      rw (notify_service-new p s e) (elim (Bool-cases (bytes_eq s.name h.service_name)) [
        | inl same ↦
            dispatch-found q h args info (at ∙ rw same refl)
            ∙ rw (same, has_name-all h.method_name s.methods) refl
        | inr other ↦ dispatch-same q p h args (at ∙ rw other refl) ∙ rw other refl
      ])
