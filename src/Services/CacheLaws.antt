-- ===== src/Services/CacheLaws.antt =====
-- The caches of callGenericService in src/generic_services.cpp, through any calls and clearings.
use phntm_bridge.Prelude.{
  ℕ, ◌≡◌, refl, ◌∙◌, sym, true, Option, some, List, [], ◌∷◌, Str, find, find-emplace, contains,
  str_key, str_eq_iff, arith, inl, inr, ◌⊎◌, subst,
}
use phntm_bridge.Text.{split}
use phntm_bridge.Services.{Msg, Members, Support}
use phntm_bridge.Services.Calls.{
  Ros, Action, acks_error, crashes, Caches, Loaded, loaded, failed, load_library, load_client,
  load_types, perform, call_in, call_generic_service, Event, call, clear, handle, handle_all,
  no_caches,
}

load_client_keeps :
    (ros : Ros) (pkg srv name : Str) (c : Caches) (j : Str)
    → contains j (load_client ros pkg srv name c).0.types ≡ contains j c.types
unfolding load_client load_library
load_client_keeps ros pkg srv name c j = grind arith

load_client_more :
    (ros : Ros) (pkg srv name : Str) (c : Caches) (j : Str)
    → contains j c.clients ≡ true
    → contains j (load_client ros pkg srv name c).0.clients ≡ true
unfolding load_client load_library
load_client_more ros pkg srv name c j h = grind (arith, find-emplace)

load_client_there :
    (ros : Ros) (pkg srv name : Str) (c : Caches) (cl : ℕ)
    → (load_client ros pkg srv name c).1 ≡ loaded cl
    → contains name (load_client ros pkg srv name c).0.clients ≡ true
unfolding load_client load_library
load_client_there ros pkg srv name c cl h = grind (arith, find-emplace, str_eq_iff)

load_types_clients :
    (ros : Ros) (pkg srv name : Str) (c : Caches)
    → (load_types ros pkg srv name c).0.clients ≡ c.clients
unfolding load_types load_library
load_types_clients ros pkg srv name c = grind arith

load_types_others :
    (ros : Ros) (pkg srv name : Str) (c : Caches) (j : Str)
    → contains j (load_types ros pkg srv name c).0.types ≡ true
    → (contains j c.types ≡ true) ⊎ (name ≡ j)
unfolding load_types load_library
load_types_others ros pkg srv name c j h = grind (arith, find-emplace, str_eq_iff)

call_in_known :
    (ros : Ros) (ts : Support) (pkg srv name : Str) (msg : Option Msg) (c : Caches) (j : Str)
    → (contains j c.types ≡ true → contains j c.clients ≡ true)
    → contains j (call_in ros ts pkg srv name msg c).0.types ≡ true
    → contains j (call_in ros ts pkg srv name msg c).0.clients ≡ true
unfolding call_in
call_in_known ros ts pkg srv name msg c j before =
    step (load_client ros pkg srv name c) (λ cl e. load_client_there ros pkg srv name c cl e)
      (λ h.
        load_client_more ros pkg srv name c j
          (before (sym (load_client_keeps ros pkg srv name c j) ∙ h)))
  where
    by_name :
        (c' : Caches)
        → contains name c'.clients ≡ true
        → (contains j c'.types ≡ true → contains j c'.clients ≡ true)
        → contains j (load_types ros pkg srv name c').0.types ≡ true
        → contains j (load_types ros pkg srv name c').0.clients ≡ true
    by_name c' there old h =
        rw (load_types_clients ros pkg srv name c')
          (elim (load_types_others ros pkg srv name c' j h) [
            | inl g ↦ old g
            | inr e ↦ subst (λ (k : Str). contains k c'.clients ≡ true) e there
          ])

    step :
        (r : Caches × Loaded ℕ)
        → ((cl : ℕ) → r.1 ≡ loaded cl → contains name r.0.clients ≡ true)
        → (contains j r.0.types ≡ true → contains j r.0.clients ≡ true)
        → (let q : Caches × List Action = elim r.1 [
          | failed e ↦ (r.0, acks_error e ∷ [])
          | loaded cl ↦
              let t = load_types ros pkg srv name r.0 in
              elim t.1 [
                | failed e ↦ (t.0, acks_error e ∷ [])
                | loaded ms ↦ (t.0, perform ros ts cl ms msg)
              ]
        ] in
            contains j q.0.types ≡ true → contains j q.0.clients ≡ true)
    step (c', failed e) there old = old
    step (c', loaded cl) there old =
        both (load_types ros pkg srv name c') (by_name c' (there cl refl) old)
      where
        both :
            (t : Caches × Loaded (Members × Members))
            → (contains j t.0.types ≡ true → contains j t.0.clients ≡ true)
            → (let q : Caches × List Action = elim t.1 [
              | failed e ↦ (t.0, acks_error e ∷ [])
              | loaded ms ↦ (t.0, perform ros ts cl ms msg)
            ] in
                contains j q.0.types ≡ true → contains j q.0.clients ≡ true)
        both (d, failed e) h = h
        both (d, loaded ms) h = h

handle_known :
    (ts : Support) (e : Event) (c : Caches) (j : Str)
    → (contains j c.types ≡ true → contains j c.clients ≡ true)
    → contains j (handle ts e c).0.types ≡ true
    → contains j (handle ts e c).0.clients ≡ true
unfolding handle find
handle_known ts clear c j before h = ground arith
handle_known ts (call ros name service_type msg) c j before h =
    parts_known (split 47 service_type) h
  where
    parts_known :
        (parts : List Str)
        → (let r : Caches × List Action = elim parts [
          | pkg ∷ kind ∷ srv ∷ more ↦ call_in ros ts pkg srv name msg c
          | _ ↦ (c, crashes ∷ [])
        ] in
            contains j r.0.types ≡ true → contains j r.0.clients ≡ true)
    parts_known [] = before
    parts_known (a ∷ []) = before
    parts_known (a ∷ b ∷ []) = before
    parts_known (pkg ∷ kind ∷ srv ∷ more) = call_in_known ros ts pkg srv name msg c j before

handle_all_from :
    (ts : Support) (es : List Event) (c : Caches) (j : Str)
    → (contains j c.types ≡ true → contains j c.clients ≡ true)
    → contains j (handle_all ts es c).types ≡ true
    → contains j (handle_all ts es c).clients ≡ true
unfolding handle_all
handle_all_from ts [] c j before = before
handle_all_from ts (e ∷ es) c j before =
    handle_all_from ts es (handle ts e c).0 j (handle_known ts e c j before)

-- After any calls and clearings, from empty caches on, each service whose types are in the cache has a
-- client in the cache.
pub handle_all_known :
    (ts : Support) (es : List Event) (name : Str)
    → contains name (handle_all ts es no_caches).types ≡ true
    → contains name (handle_all ts es no_caches).clients ≡ true
unfolding find
handle_all_known ts es name h = handle_all_from ts es no_caches name (λ g. ground arith) h

-- With its client and its types in the caches, the type that a call names is not read.
call_in_cached :
    (ros : Ros) (ts : Support) (name pkg srv : Str) (msg : Option Msg) (c : Caches) (cl : ℕ)
    (ms : Members × Members)
    → find name c.clients ≡ some cl
    → find name c.types ≡ some ms
    → call_in ros ts pkg srv name msg c ≡ (c, perform ros ts cl ms msg)
unfolding call_in load_client load_types
call_in_cached ros ts name pkg srv msg c cl ms h k = ground arith

-- A service whose client and types are in the caches is called by them, whatever type the call names:
-- two calls of the service under two types of three parts or more do the same.
call_generic_service-same :
    (ros : Ros) (ts : Support) (name : Str) (msg : Option Msg) (c : Caches) (type₁ type₂ : Str)
    (a₁ b₁ d₁ a₂ b₂ d₂ : Str) (l₁ l₂ : List Str)
    → split 47 type₁ ≡ a₁ ∷ b₁ ∷ d₁ ∷ l₁
    → split 47 type₂ ≡ a₂ ∷ b₂ ∷ d₂ ∷ l₂
    → (cl : ℕ) (ms : Members × Members) → find name c.clients ≡ some cl
    → find name c.types ≡ some ms
    → call_generic_service ros ts name type₁ msg c ≡ call_generic_service ros ts name type₂ msg c
unfolding call_generic_service
call_generic_service-same ros ts name msg c type₁ type₂ a₁ b₁ d₁ a₂ b₂ d₂ l₁ l₂ p q cl ms h k =
    rw (p, call_generic_service)
      (rw (q, call_generic_service)
        (call_in_cached ros ts name a₁ d₁ msg c cl ms h k
          ∙ sym (call_in_cached ros ts name a₂ d₂ msg c cl ms h k)))
