-- ===== src/Auth/Origin.antt =====
-- middleware/client_origin.go: from where a request came. The environment gives the number of
-- proxies; the reading of an address, of an address with a port and the repair of a text cut short
-- belong to the packages `net` and `strings`.
use backend_pkg.Common.{
  ℕ, zero, suc, ◌+◌, ◌-◌, ◌≤◌, ◌≡◌, refl, sym, Bool, ◌||◌, [], ◌∷◌, ◌++◌, Bytes, ◌==◌, ◌=ᵇ◌, leb,
  if◌then◌else◌, Option, none, some, ℤ, pos, negsuc, arith, length, take, get_elem?, get_or,
  trim_space, split_on, split_on-append, get_elem?-append_right, length-append, atoi,
}

abbrev default_trusted_proxy_hops : ℕ
default_trusted_proxy_hops = 1

abbrev max_user_agent_len : ℕ
max_user_agent_len = 512

pub record ClientOrigin : Type 0 where
  pub ip : Bytes
  pub user_agent : Bytes

-- What the code reads of a request. A missing header is blank.
pub record Request : Type 0 where
  pub remote_addr : Bytes
  pub forwarded_for : Bytes
  pub client_user_agent : Bytes
  pub plain_user_agent : Bytes

abbrev hops_of : Option ℤ → ℕ
hops_of none = default_trusted_proxy_hops
hops_of (some (negsuc n)) = default_trusted_proxy_hops
hops_of (some (pos n)) = n

-- `env` is the value of TRUSTED_PROXY_HOPS, blank if it is not set.
unfoldable pub trusted_proxy_hops : Bytes → ℕ
trusted_proxy_hops env =
    let raw = trim_space env in if raw =ᵇ [] then default_trusted_proxy_hops else hops_of (atoi raw)

-- `strings.Trim(host, "[]")`.
abbrev is_bracket : ℕ → Bool
is_bracket c = c == b'[' || c == b']'

drop_brackets : Bytes → Bytes
drop_brackets [] = []
drop_brackets (c ∷ s) = if is_bracket c then drop_brackets s else c ∷ s

abbrev keep_last_byte : ℕ → Bytes → Bytes
keep_last_byte c [] = if is_bracket c then [] else c ∷ []
keep_last_byte c (d ∷ r) = c ∷ (d ∷ r)

drop_brackets_end : Bytes → Bytes
drop_brackets_end [] = []
drop_brackets_end (c ∷ s) = keep_last_byte c (drop_brackets_end s)

trim_brackets : Bytes → Bytes
unfolding drop_brackets drop_brackets_end
trim_brackets s = drop_brackets_end (drop_brackets s)

abbrev pub comma : ℕ
comma = b','

-- `parse_ip` gives an address in its canonical form, `split_host_port` the host of an address.
module _ (parse_ip split_host_port : Bytes → Option Bytes) where
  host_ip : Option Bytes → Bytes
  unfolding trim_brackets
  host_ip none = []
  host_ip (some host) = get_or [] (parse_ip (trim_brackets host))

  ip_of : Bytes → Option Bytes → Bytes
  unfolding host_ip
  ip_of raw (some ip) = ip
  ip_of raw none = host_ip (split_host_port raw)

  unfoldable pub normalize_ip : Bytes → Bytes
  unfolding ip_of
  normalize_ip raw = let t = trim_space raw in if t =ᵇ [] then [] else ip_of t (parse_ip t)

  -- The entry of the chain that the outermost trusted proxy wrote, or the first if there are fewer:
  -- `-` stops at 0. The chain has an entry at least, so it is there.
  pub chosen_entry : ℕ → Bytes → Bytes
  chosen_entry hops forwarded =
      let parts = split_on comma forwarded in get_or [] (get_elem? parts (length parts - hops))

  forwarded_ip : ℕ → Bytes → Bytes
  unfolding chosen_entry
  forwarded_ip hops forwarded =
      if forwarded =ᵇ [] then [] else normalize_ip (chosen_entry hops forwarded)

  unfoldable pub resolve_client_ip : Bytes → Option Request → Bytes
  unfolding forwarded_ip
  resolve_client_ip env none = []
  resolve_client_ip env (some r) =
      let hops = trusted_proxy_hops env in
      if hops == 0 then normalize_ip r.remote_addr else forwarded_ip hops r.forwarded_for

  module _ (to_valid_utf8 : Bytes → Bytes) where
    pub truncate_user_agent : Bytes → Bytes
    truncate_user_agent ua =
        if leb (length ua) max_user_agent_len
        then ua
        else to_valid_utf8 (take max_user_agent_len ua)

    agent_of : Request → Bytes
    agent_of r =
        let ua = trim_space r.client_user_agent in
        if ua =ᵇ [] then trim_space r.plain_user_agent else ua

    pub resolve_user_agent : Option Request → Bytes
    unfolding agent_of
    resolve_user_agent none = []
    resolve_user_agent (some r) = truncate_user_agent (agent_of r)

    pub resolve_client_origin : Bytes → Option Request → ClientOrigin
    resolve_client_origin env r = record {
      ip = resolve_client_ip env r;
      user_agent = resolve_user_agent r;
    }

  entry-append :
      (hops : ℕ) (forged trusted : Bytes)
      → hops ≤ length (split_on comma trusted)
      → chosen_entry hops (forged ++ (comma ∷ trusted)) ≡ chosen_entry hops trusted
  unfolding chosen_entry
  entry-append hops forged trusted h =
      let a = split_on comma forged in
      let b = split_on comma trusted in
      let e : length a + length b - hops ≡ length a + (length b - hops) = omega arith in
      rw
        (
          split_on-append comma forged trusted,
          length-append a b,
          e,
          get_elem?-append_right a b (length b - hops),
        )
        refl

  no_entry : (i : ℕ) → get_or {A = Bytes} [] (get_elem? ([] ∷ []) i) ≡ []
  no_entry zero = refl
  no_entry (suc zero) = refl
  no_entry (suc (suc i)) = refl

  blank_entry : (hops : ℕ) → normalize_ip (chosen_entry hops []) ≡ []
  unfolding chosen_entry normalize_ip split_on trim_space ◌=ᵇ◌
  blank_entry hops = rw (no_entry (1 - hops)) refl

  forwarded_ip-entry :
      (hops : ℕ) (text : Bytes) → forwarded_ip hops text ≡ normalize_ip (chosen_entry hops text)
  unfolding forwarded_ip ◌=ᵇ◌
  forwarded_ip-entry hops [] = sym (blank_entry hops)
  forwarded_ip-entry hops (c ∷ s) = refl

  -- What a client writes in front of the entries of the trusted proxies does not change the address
  -- that is recorded.
  pub resolve_client_ip_forged :
      (env : Bytes) (r : Request) (forged trusted : Bytes)
      → trusted_proxy_hops env ≤ length (split_on comma trusted)
      → resolve_client_ip env (some (record r { forwarded_for = forged ++ (comma ∷ trusted) }))
        ≡ resolve_client_ip env (some (record r { forwarded_for = trusted }))
  unfolding resolve_client_ip
  resolve_client_ip_forged env r forged trusted h =
      let hops = trusted_proxy_hops env in
      rw
        (
          forwarded_ip-entry hops (forged ++ (comma ∷ trusted)),
          forwarded_ip-entry hops trusted,
          entry-append hops forged trusted h,
        )
        refl
