-- ===== src/Server/Clients.antt =====
-- The clients of web/src/server/clients.ts, which are made when they are first asked for.
pub mod Once
use file_indexer.Prelude.{Option, none, some, List, [], ◌∷◌, ◌++◌, Text, codes, or_default}

pub data Service : Type 0 where
  search_service files_service : Service

-- `SEARCH_ADDR` and `FILES_ADDR`
pub record Environment : Type 0 where
  pub search_addr : Option Text
  pub files_addr : Option Text

unfoldable pub address : Environment → Service → Text
address env search_service = or_default env.search_addr (codes "localhost:50053")
address env files_service = or_default env.files_addr (codes "localhost:50052")

-- The two variables of the module, and the clients that were made so far.
pub record Clients (C : Type 0) : Type 0 where
  pub search_client : Option C
  pub files_client : Option C
  pub made : List (Service × Text)

abbrev pub no_clients : {C : Type 0} → Clients C
no_clients = record { search_client = none; files_client = none; made = [] }

abbrev pub base_url : Environment → Service → Text
base_url env service = codes "http://" ++ address env service

-- `create` is `createClient` for a service, with a transport to this base URL.
module _ {C : Type 0} (create : Service → Text → C) (env : Environment) where
  -- What was made, and is kept from now on.
  abbrev pub make : Service → List (Service × Text) → C × List (Service × Text)
  make service made =
      (create service (base_url env service), made ++ (service, base_url env service) ∷ [])

  abbrev pub search_or : Clients C → Option C → C × Clients C
  search_or c (some client) = (client, c)
  search_or c none =
      let (client, made) = make search_service c.made in
      (client, record c { search_client = some client; made = made })

  abbrev pub files_or : Clients C → Option C → C × Clients C
  files_or c (some client) = (client, c)
  files_or c none =
      let (client, made) = make files_service c.made in
      (client, record c { files_client = some client; made = made })

  unfoldable pub get_search_client : Clients C → C × Clients C
  unfolding address
  get_search_client c = search_or c c.search_client

  unfoldable pub get_files_client : Clients C → C × Clients C
  unfolding address
  get_files_client c = files_or c c.files_client

  unfoldable pub get_client : Service → Clients C → C × Clients C
  unfolding get_search_client get_files_client
  get_client search_service c = get_search_client c
  get_client files_service c = get_files_client c

  -- One request after another, each with the client that it was given.
  unfoldable pub get_clients : List Service → Clients C → List C × Clients C
  unfolding get_client
  get_clients [] c = ([], c)
  get_clients (service ∷ services) c =
      let (client, d) = get_client service c in
      let (clients, e) = get_clients services d in (client ∷ clients, e)
