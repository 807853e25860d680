-- ===== src/Guest/Network.antt =====
-- `configureNetwork` of cmd/agent/main.go, on the state of one network interface.
use manta.Prelude.{
  ◌≡◌, refl, ap, sym, ◌∙◌, subst, Bool, true, false, List, [], ◌∷◌, ◌++◌, Option, none, some, ◌||◌,
  not, if◌then◌else◌,
}
use manta.Text.{Str, lit, is_empty}
use manta.Text.Trim.{trim_space}
use manta.Rpc.{NetRequest}

-- The IPv4 addresses, and those of other families; `gateway` is the default route; `resolv` the
-- content of /etc/resolv.conf.
pub record Interface : Type 0 where
  pub up : Bool
  pub addresses : List Str
  pub other_addresses : List Str
  pub gateway : Option Str
  pub resolv : Str

-- What netlink and net answer for the interface of the request: whether each call returns a nil
-- error.
pub record Netlink : Type 0 where
  pub parses_ip : Str → Bool
  pub parses_addr : Str → Bool
  -- whether the address that is parsed is one of IPv4
  pub is_v4 : Str → Bool
  pub exists : Str → Bool
  pub set_up : Bool
  -- the addresses of other families that the kernel assigns as the link comes up
  pub assigned : List Str
  pub list_addresses : Bool
  pub add_address : Bool
  pub replace_route : Bool
  pub del_address : Str → Bool
  pub write_resolv : Bool

pub data NetError : Type 0 where
  required invalid_gateway lookup_interface set_up_failed list_failed remove_failed : NetError
  parse_failed assign_failed route_failed : NetError

abbrev pub Step : Type 0
Step = Interface → Option NetError × Interface

abbrev pub guard : Bool → NetError → Step → Step
guard b e k i = if b then k i else (some e, i)

-- A call that changes the interface where it succeeds.
abbrev pub call : Bool → NetError → (Interface → Interface) → Step → Step
call b e f k i = if b then k (f i) else (some e, i)

-- The loop over the IPv4 addresses that are listed: the first that cannot be removed ends it.
unfoldable pub del_addresses : Netlink → List Str → Step → Step
del_addresses nl [] k i = k i
del_addresses nl (a ∷ rest) k i =
    let next = del_addresses nl rest k (record i { addresses = rest }) in
    if nl.del_address a then next else (some remove_failed, i)

abbrev pub interface_name : NetRequest → Str
interface_name req =
    if is_empty (trim_space req.interface) then lit "eth0" else trim_space req.interface

-- The error of the write is dropped.
abbrev pub set_dns : Netlink → Str → Step
set_dns nl dns i = (
  none,
  if is_empty dns
      then i
      else if nl.write_resolv
      then record i { resolv = lit "nameserver " ++ (dns ++ lit "\n") }
      else i,
)

abbrev pub add_to : Netlink → NetRequest → Interface → Interface
add_to nl req i =
    if nl.is_v4 (trim_space req.address)
    then record i { addresses = i.addresses ++ (trim_space req.address ∷ []) }
    else record i { other_addresses = i.other_addresses ++ (trim_space req.address ∷ []) }

abbrev pub route_by : NetRequest → Interface → Interface
route_by req i = record i { gateway = some (trim_space req.gateway) }

abbrev pub set_route : Netlink → NetRequest → Step
set_route nl req =
    call nl.replace_route route_failed (route_by req) (set_dns nl (trim_space req.dns))

abbrev pub set_address : Netlink → NetRequest → Step
set_address nl req = call nl.add_address assign_failed (add_to nl req) (set_route nl req)

abbrev pub assign : Netlink → NetRequest → Step
assign nl req = guard (nl.parses_addr (trim_space req.address)) parse_failed (set_address nl req)

-- From the link on: it is set up, loses the IPv4 addresses that it has, and gets the
-- request's.
abbrev pub replace_addresses : Netlink → NetRequest → Step
replace_addresses nl req i = del_addresses nl i.addresses (assign nl req) i

abbrev pub set_link_up : Netlink → Interface → Interface
set_link_up nl i = record i { up = true; other_addresses = i.other_addresses ++ nl.assigned }

abbrev pub on_link : Netlink → NetRequest → Step
on_link nl req =
    call nl.set_up set_up_failed (set_link_up nl)
      (guard nl.list_addresses list_failed (replace_addresses nl req))

abbrev pub with_gateway : Netlink → NetRequest → Step
with_gateway nl req =
    guard (nl.parses_ip (trim_space req.gateway)) invalid_gateway
      (guard (nl.exists (interface_name req)) lookup_interface (on_link nl req))

unfoldable pub configure_network : Netlink → NetRequest → Step
configure_network nl req i =
    if is_empty (trim_space req.address) || is_empty (trim_space req.gateway)
    then (some required, i)
    else with_gateway nl req i

-- What is left to show where a step succeeds.
abbrev Done : (Interface → Type 0) → Option NetError × Interface → Type 0
Done P (none, i) = P i
Done P (some e, i) = Unit

-- The addresses of the request among those of a family.
abbrev pub only : Bool → Str → List Str
only true a = a ∷ []
only false a = []

abbrev Configured : Netlink → NetRequest → List Str → Interface → Type 0
Configured nl req others i =
    (i.up ≡ true)
    × (i.addresses ≡ only (nl.is_v4 (trim_space req.address)) (trim_space req.address))
    × (i.other_addresses
        ≡ others ++ only (not (nl.is_v4 (trim_space req.address))) (trim_space req.address))
    × (i.gateway ≡ some (trim_space req.gateway))

record Ends (P : Interface → Type 0) (k : Step) (i : Interface) : Type 0 where
  at : Done P (k i)

module _ {P : Interface → Type 0} where
  Ends-guard :
      (b : Bool) (e : NetError) (k : Step) (i : Interface) → Ends P k i → Ends P (guard b e k) i
  Ends-guard true e k i h = record { at = h.at }
  Ends-guard false e k i h = record { at = tt }

  Ends-call :
      (b : Bool) (e : NetError) (f : Interface → Interface) (k : Step) (i : Interface)
      → Ends P k (f i)
      → Ends P (call b e f k) i
  Ends-call true e f k i h = record { at = h.at }
  Ends-call false e f k i h = record { at = tt }

  Ends-refused :
      (b : Bool) (e : NetError) (i : Interface) (k : Step)
      → Ends P k i
      → Done P (if b then (some e, i) else k i)
  Ends-refused true e i k h = tt
  Ends-refused false e i k h = h.at

Done-del :
    (P : Interface → Type 0) (b : Bool) (i : Interface) (r : Option NetError × Interface)
    → Done P r
    → Done P (if b then r else (some remove_failed, i))
Done-del P true i r h = h
Done-del P false i r h = tt

append_empty : (l : List Str) → l ++ [] ≡ l
append_empty [] = refl
append_empty (x ∷ l) = ap (λ t. x ∷ t) (append_empty l)

module _ (nl : Netlink) (req : NetRequest) (others : List Str) where
  set_dns-Configured :
      (dns : Str) (i : Interface)
      → Configured nl req others i
      → Ends (Configured nl req others) (set_dns nl dns) i
  set_dns-Configured dns i h = record { at = kept (is_empty dns) nl.write_resolv }
    where
      kept :
          (b c : Bool)
          → Configured nl req others (
              if b
              then i
              else if c
              then record i { resolv = lit "nameserver " ++ (dns ++ lit "\n") }
              else i)
      kept true c = h
      kept false true = h
      kept false false = h

  del-Done :
      (P : Interface → Type 0) (found : List Str) (k : Step) (i : Interface)
      → i.addresses ≡ found
      → ((j : Interface)
          → j.up ≡ i.up
          → j.addresses ≡ []
          → j.other_addresses ≡ i.other_addresses
          → Ends P k j)
      → Done P (del_addresses nl found k i)
  unfolding del_addresses
  del-Done P [] k i e h = (h i refl e refl).at
  del-Done P (a ∷ rest) k i e h =
      Done-del P (nl.del_address a) i _
        (del-Done P rest k (record i { addresses = rest }) refl (λ j u n o. h j u n o))

  routed-Configured :
      (i : Interface)
      → i.up ≡ true
      → i.addresses ≡ []
      → i.other_addresses ≡ others
      → Configured nl req others (route_by req (add_to nl req i))
  routed-Configured i up none_left same = added (nl.is_v4 (trim_space req.address)) refl
    where
      added :
          (b : Bool)
          → nl.is_v4 (trim_space req.address) ≡ b
          → Configured nl req others (route_by req (add_to nl req i))
      added true e = rw e (
        up,
        ap (λ l. l ++ (trim_space req.address ∷ [])) none_left,
        same ∙ sym (append_empty others),
        refl,
      )
      added false e = rw e (up, none_left, ap (λ l. l ++ (trim_space req.address ∷ [])) same, refl)

  assign-Configured :
      (i : Interface)
      → i.up ≡ true
      → i.addresses ≡ []
      → i.other_addresses ≡ others
      → Ends (Configured nl req others) (assign nl req) i
  assign-Configured i up none_left same =
      Ends-guard (nl.parses_addr (trim_space req.address)) parse_failed (set_address nl req) i (
        Ends-call nl.add_address assign_failed (add_to nl req) (set_route nl req) i (
          Ends-call nl.replace_route route_failed (route_by req) (set_dns nl (trim_space req.dns))
            (add_to nl req i)
            (set_dns-Configured (trim_space req.dns) (route_by req (add_to nl req i))
              (routed-Configured i up none_left same))))

  listed-Configured :
      (i : Interface)
      → i.up ≡ true
      → i.other_addresses ≡ others
      → Ends (Configured nl req others) (replace_addresses nl req) i
  listed-Configured i up same = record {
    at =
        del-Done (Configured nl req others) i.addresses (assign nl req) i refl
          (λ j u n o. assign-Configured j (u ∙ up) n (o ∙ same));
  }

configure-Done :
    (nl : Netlink) (req : NetRequest) (i : Interface)
    → Done (Configured nl req (i.other_addresses ++ nl.assigned)) (configure_network nl req i)
unfolding configure_network
configure-Done nl req i =
    Ends-refused (is_empty (trim_space req.address) || is_empty (trim_space req.gateway)) required i
      (with_gateway nl req)
      (Ends-guard (nl.parses_ip (trim_space req.gateway)) invalid_gateway _ i (
        Ends-guard (nl.exists (interface_name req)) lookup_interface (on_link nl req) i (
          Ends-call nl.set_up set_up_failed (set_link_up nl) _ i (
            Ends-guard nl.list_addresses list_failed (replace_addresses nl req) (set_link_up nl i) (
              listed-Configured nl req (i.other_addresses ++ nl.assigned) (set_link_up nl i) refl
                refl)))))

-- Where the configuration of the network succeeds, whatever the interface was before, it is up; its
-- IPv4 addresses are that of the request alone, or none where that is of another family; those of
-- other families are as before, with those that the kernel assigns as the link comes up and with the
-- request's where it is one; and the default route goes by the request's gateway.
pub configure_network-Configured :
    (nl : Netlink) (req : NetRequest) (i j : Interface)
    → configure_network nl req i ≡ (none, j)
    → let a = trim_space req.address in
      (j.up ≡ true)
      × (j.addresses ≡ only (nl.is_v4 a) a)
      × (j.other_addresses ≡ (i.other_addresses ++ nl.assigned) ++ only (not (nl.is_v4 a)) a)
      × (j.gateway ≡ some (trim_space req.gateway))
configure_network-Configured nl req i j e =
    subst (Done (Configured nl req (i.other_addresses ++ nl.assigned))) e (configure-Done nl req i)
