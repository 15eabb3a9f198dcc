-- ===== src/Server/Clients/Once.antt =====
-- Which clients requests are given.
use file_indexer.Prelude.{
  ℕ, suc, ◌+◌, ◌≤◌, ◌≡◌, refl, ◌∙◌, ap, Option, none, some, List, [], ◌∷◌, ◌++◌, map, Text, arith,
  subst,
}
use file_indexer.Server.Clients.{
  Service, search_service, files_service, Environment, Clients, no_clients, base_url, search_or,
  files_or, get_search_client, get_files_client, get_client, get_clients,
}

-- How many clients of a service were made.
abbrev pub made_for : Service → List (Service × Text) → ℕ
made_for service [] = 0
made_for search_service ((search_service, _) ∷ made) = suc (made_for search_service made)
made_for files_service ((files_service, _) ∷ made) = suc (made_for files_service made)
made_for search_service ((files_service, _) ∷ made) = made_for search_service made
made_for files_service ((search_service, _) ∷ made) = made_for files_service made

made_for-append :
    (service : Service) (made more : List (Service × Text))
    → made_for service (made ++ more) ≡ made_for service made + made_for service more
made_for-append service [] more = omega arith
made_for-append search_service ((search_service, _) ∷ made) more =
    omega (arith, made_for-append search_service made more)
made_for-append files_service ((files_service, _) ∷ made) more =
    omega (arith, made_for-append files_service made more)
made_for-append search_service ((files_service, _) ∷ made) more =
    made_for-append search_service made more
made_for-append files_service ((search_service, _) ∷ made) more =
    made_for-append files_service made more

module _ {C : Type 0} (create : Service → Text → C) (env : Environment) where
  abbrev client_of : Service → C
  client_of service = create service (base_url env service)

  -- A variable is empty and no client was made, or it has the client and one was made.
  abbrev Kept : Service → Option C → ℕ → Type 0
  Kept service none n = n ≡ 0
  Kept service (some client) n = (client ≡ client_of service) × (n ≡ 1)

  abbrev IsKept : Clients C → Type 0
  IsKept c =
      Kept search_service c.search_client (made_for search_service c.made)
      × Kept files_service c.files_client (made_for files_service c.made)

  abbrev Gives : Service → C × Clients C → Type 0
  Gives service (client, after) = (client ≡ client_of service) × IsKept after

  search_or-Gives :
      (c : Clients C) (o : Option C)
      → c.search_client ≡ o
      → Kept search_service o (made_for search_service c.made)
      → IsKept c
      → Gives search_service (search_or create env c o)
  search_or-Gives c none e k (_, files) =
      let more = (search_service, base_url env search_service) ∷ [] in
      let one : made_for search_service (c.made ++ more) ≡ 1 =
        omega (arith, made_for-append search_service c.made more) in
      let same : made_for files_service c.made ≡ made_for files_service (c.made ++ more) =
        omega (arith, made_for-append files_service c.made more) in
      (refl, ((refl, one), subst (Kept files_service c.files_client) same files))
  search_or-Gives c (some client) e k s = (k.0, s)

  files_or-Gives :
      (c : Clients C) (o : Option C)
      → c.files_client ≡ o
      → Kept files_service o (made_for files_service c.made)
      → IsKept c
      → Gives files_service (files_or create env c o)
  files_or-Gives c none e k (search, _) =
      let more = (files_service, base_url env files_service) ∷ [] in
      let one : made_for files_service (c.made ++ more) ≡ 1 =
        omega (arith, made_for-append files_service c.made more) in
      let same : made_for search_service c.made ≡ made_for search_service (c.made ++ more) =
        omega (arith, made_for-append search_service c.made more) in
      (refl, (subst (Kept search_service c.search_client) same search, (refl, one)))
  files_or-Gives c (some client) e k s = (k.0, s)

  get_client-Gives :
      (service : Service) (c : Clients C)
      → IsKept c
      → Gives service (get_client create env service c)
  unfolding get_client get_search_client get_files_client
  get_client-Gives search_service c s = search_or-Gives c c.search_client refl (s.0) s
  get_client-Gives files_service c s = files_or-Gives c c.files_client refl (s.1) s

  get_clients-IsKept :
      (services : List Service) (c : Clients C)
      → IsKept c
      → ((get_clients create env services c).0 ≡ map client_of services)
        × IsKept ((get_clients create env services c).1)
  unfolding get_clients
  get_clients-IsKept [] c s = (refl, s)
  get_clients-IsKept (service ∷ services) c s =
      let (given, kept) = get_client-Gives service c s in
      let (rest, after) = get_clients-IsKept services ((get_client create env service c).1) kept in
      (
        ap (λ x. x ∷ (get_clients create env services ((get_client create env service c).1)).0)
              given
            ∙ ap (λ xs. client_of service ∷ xs) rest,
        after,
      )

  Kept-most : (service : Service) (o : Option C) (n : ℕ) → Kept service o n → n ≤ 1
  Kept-most service none n k = omega arith
  Kept-most service (some client) n k = let one = k.1 in omega arith

  -- Whatever clients are asked for, and in whatever order, each request is given the client of its
  -- service at the address that the environment says, and of each service one client is made at most.
  pub get_clients-once :
      (services : List Service)
      → let (clients, c) = get_clients create env services no_clients in
        (clients ≡ map (λ service. create service (base_url env service)) services)
        × (made_for search_service c.made ≤ 1)
        × (made_for files_service c.made ≤ 1)
  get_clients-once services =
      let (given, kept) = get_clients-IsKept services no_clients (refl, refl) in
      let c = (get_clients create env services no_clients).1 in
      (
        given,
        Kept-most search_service c.search_client (made_for search_service c.made) (kept.0),
        Kept-most files_service c.files_client (made_for files_service c.made) (kept.1),
      )
