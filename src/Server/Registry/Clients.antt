-- ===== src/Server/Registry/Clients.antt =====
-- The table of clients of registry.go: ids and virtual addresses belong to one client each.
use eliaukvpn.Base.{◌≡◌, ◌≢◌, false, none, some, [], ◌∷◌, arith}
use eliaukvpn.Base.Str.{Str, str_eq_iff}
use eliaukvpn.Base.GoMap.{
  GoMap, get, put, delete, get-put, get-delete, IsMap, put-IsMap, delete-IsMap,
}
use eliaukvpn.Server.State.{Client}
use eliaukvpn.Server.Registry.{ip_taken}

pub record ClientsOk (clients : GoMap Client) : Type 0 where
  pub is_map : IsMap clients
  pub own_id : (id : Str) (c : Client) → get id clients ≡ some c → c.id ≡ id
  pub distinct_ips :
      (i j : Str) (c d : Client)
      → get i clients ≡ some c
      → get j clients ≡ some d
      → c.virtual_ip ≡ d.virtual_ip
      → i ≡ j

untaken :
    (addr : Str) (clients : GoMap Client) (id : Str) (c : Client)
    → ip_taken addr clients ≡ false
    → get id clients ≡ some c
    → c.virtual_ip ≢ addr
unfolding ip_taken get
untaken addr [] id c free e same = cc
untaken addr ((j, d) ∷ clients) id c free e same =
    ground (arith, str_eq_iff d.virtual_ip addr, untaken addr clients id c)

-- A new client under a new id, with an address that no other has.
pub put_new-ClientsOk :
    (clients : GoMap Client) (c : Client)
    → ClientsOk clients
    → get c.id clients ≡ none
    → ip_taken c.virtual_ip clients ≡ false
    → ClientsOk (put c.id c clients)
put_new-ClientsOk clients c v fresh free = record {
  is_map = put-IsMap c.id c clients v.is_map;
  own_id = λ id d e. ground (arith, get-put c.id id c clients, str_eq_iff c.id id, v.own_id id d);
  distinct_ips = λ i j a b ea eb same. ground (
    arith,
    get-put c.id i c clients,
    get-put c.id j c clients,
    str_eq_iff c.id i,
    str_eq_iff c.id j,
    v.distinct_ips i j a b,
    untaken c.virtual_ip clients i a free,
    untaken c.virtual_ip clients j b free,
  );
}

-- A client changed in place keeps its id and its address.
pub put_same-ClientsOk :
    (clients : GoMap Client) (id : Str) (c d : Client)
    → ClientsOk clients
    → get id clients ≡ some c
    → d.id ≡ c.id
    → d.virtual_ip ≡ c.virtual_ip
    → ClientsOk (put id d clients)
put_same-ClientsOk clients id c d v found same_id same_ip = record {
  is_map = put-IsMap id d clients v.is_map;
  own_id =
      λ i a e. ground (arith, get-put id i d clients, str_eq_iff id i, v.own_id i a, v.own_id id c);
  distinct_ips = λ i j a b ea eb same. ground (
    arith,
    get-put id i d clients,
    get-put id j d clients,
    str_eq_iff id i,
    str_eq_iff id j,
    v.distinct_ips i j a b,
    v.distinct_ips id j c b,
    v.distinct_ips i id a c,
  );
}

pub delete-ClientsOk :
    (clients : GoMap Client) (id : Str) → ClientsOk clients → ClientsOk (delete id clients)
delete-ClientsOk clients id v = record {
  is_map = delete-IsMap id clients v.is_map;
  own_id = λ i a e. ground (arith, get-delete id i clients, v.own_id i a);
  distinct_ips = λ i j a b ea eb same.
      ground (arith, get-delete id i clients, get-delete id j clients, v.distinct_ips i j a b);
}
