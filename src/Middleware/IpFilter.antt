-- ===== src/Middleware/IpFilter.antt =====
-- internal/middleware/ipfilter.go. Parameters of the package net: `parse_ip` is ParseIP, with `none`
-- for nil; `cidr` is ParseCIDR with the Contains of its net, `none` for an error; `host_part` is
-- SplitHostPort. `first_field` is the first part of a header's text, cut at a comma and trimmed.
use load_balancer.Base.{
  ◌≡◌, refl, sym, ◌↔◌, ◌⊎◌, inl, inr, Bool, true, false, not, ◌&&◌, Option, none, some, String,
  List, [], ◌∷◌, arith, str_eq, if◌then◌else◌, Bool-cases, Option-cases, In,
}
use text.Mathlib.Text.{find?}

-- TrustedProxies, which nothing reads, is left out.
pub record Config : Type 0 where
  pub whitelist : List String
  pub blacklist : List String

-- What getClientIP reads; the empty text for a header that is not there.
pub record Client : Type 0 where
  pub forwarded_for : String
  pub real_ip : String
  pub remote_addr : String

abbrev pub is_slashed : String → Bool
is_slashed item = elim (find? item "/") [ none ↦ false | some i ↦ true ]

abbrev pub is_blank : String → Bool
is_blank s = str_eq s ""

abbrev pub is_none {ℓ} : {A : Type ℓ} → List A → Bool
is_none [] = true
is_none (_ ∷ _) = false

-- The host of SplitHostPort, or the whole text where it fails.
abbrev pub or_whole : String → Option String → String
or_whole s none = s
or_whole s (some host) = host

module _ {Ip : Type 0} (parse_ip : String → Option Ip) (cidr : String → Option (Ip → Bool))
    (host_part : String → Option String) (first_field : String → String) where
  unfoldable pub get_client_ip : Client → String
  get_client_ip c =
      let direct =
        if not (is_blank c.real_ip)
        then c.real_ip
        else or_whole c.remote_addr (host_part c.remote_addr) in
      let first = first_field c.forwarded_for in
      if not (is_blank c.forwarded_for)
      then (if not (is_blank first) then first else direct)
      else direct

  abbrev pub in_net : Ip → Option (Ip → Bool) → Bool
  in_net ip none = false
  in_net ip (some f) = f ip

  -- The body of the loop of isIPInList.
  abbrev pub matches : String → Ip → String → Bool
  matches text ip item = if is_slashed item then in_net ip (cidr item) else str_eq item text

  unfoldable pub any_item : String → Ip → List String → Bool
  any_item text ip [] = false
  any_item text ip (item ∷ items) =
      let rest = any_item text ip items in if matches text ip item then true else rest

  abbrev pub in_list_parsed : String → List String → Option Ip → Bool
  in_list_parsed text items none = false
  in_list_parsed text items (some ip) = any_item text ip items

  unfoldable pub is_ip_in_list : String → List String → Bool
  unfolding any_item
  is_ip_in_list text items = in_list_parsed text items (parse_ip text)

  -- Whether the handler calls the next one; otherwise it answers 403.
  unfoldable pub ip_filter : Config → Client → Bool
  unfolding get_client_ip is_ip_in_list
  ip_filter config c =
      let client_ip = get_client_ip c in
      if not (is_none config.blacklist) && is_ip_in_list client_ip config.blacklist
      then false
      else if not (is_none config.whitelist) && not (is_ip_in_list client_ip config.whitelist)
      then false
      else true

  -- The address is valid, and an item names it: by its text, or as a net that holds it.
  abbrev pub Lists : List String → String → Type 0
  Lists items text =
      (ip : Ip) × (parse_ip text ≡ some ip)
      × ((item : String) × In item items × (matches text ip item ≡ true))

  any_item-In :
      (text : String) (ip : Ip) (items : List String)
      → (any_item text ip items ≡ true)
        ↔ ((item : String) × In item items × (matches text ip item ≡ true))
  unfolding any_item
  any_item-In text ip [] = (λ h. cc, λ h. elim h.1 [ ])
  any_item-In text ip (item ∷ items) = (
    λ h. elim (Bool-cases (matches text ip item)) [
      | inl t ↦ (item, inl refl, t)
      | inr t ↦ let (x, mem, m) = (any_item-In text ip items).0 (rw t at h) in (x, inr mem, m)
    ],
    λ h. elim (Bool-cases (matches text ip item)) [
      | inl t ↦ rw t refl
      | inr t ↦ rw t (elim h.1 [
        | inl here ↦ let clash = rw here at h.2 in cc
        | inr there ↦ (any_item-In text ip items).1 (h.0, there, h.2)
      ])
    ],
  )

  is_ip_in_list_iff :
      (text : String) (items : List String) → (is_ip_in_list text items ≡ true) ↔ Lists items text
  unfolding is_ip_in_list
  is_ip_in_list_iff text items = elim (Option-cases (parse_ip text)) [
    | inl bad ↦ (λ h. let clash = rw bad at h in cc, λ h. let clash = h.1 in cc)
    | inr (ip, good) ↦ (
      λ h. (ip, good, (any_item-In text ip items).0 (rw good at h)),
      λ h.
          let named = h.1 in
          let same : h.0 ≡ ip = cc in rw good ((any_item-In text ip items).1 (rw same at h.2)),
    )
  ]

  nobody_listed : (text : String) → is_ip_in_list text [] ≡ false
  unfolding is_ip_in_list
  nobody_listed text = elim (Option-cases (parse_ip text)) [
    | inl bad ↦ rw bad
    | inr (ip, good) ↦ rw good
  ]

  -- The tests for an empty list change nothing for the blacklist.
  guard_redundant :
      (text : String) (items : List String)
      → not (is_none items) && is_ip_in_list text items ≡ is_ip_in_list text items
  guard_redundant text [] = sym (nobody_listed text)
  guard_redundant text (item ∷ items) = refl

  is_none-nil : (items : List String) → is_none items ≡ true → items ≡ []
  is_none-nil [] h = refl
  is_none-nil (item ∷ items) h = cc

  -- A request passes exactly if the address found for it is not on the blacklist, and is on the
  -- whitelist unless that is empty.
  pub ip_filter_iff :
      (config : Config) (c : Client)
      → (ip_filter config c ≡ true) ↔ (
          (¬ Lists config.blacklist (get_client_ip c))
          × ((config.whitelist ≡ []) ⊎ Lists config.whitelist (get_client_ip c)))
  unfolding ip_filter
  ip_filter_iff config c =
      let text = get_client_ip c in
      let black = is_ip_in_list_iff text config.blacklist in
      let white = is_ip_in_list_iff text config.whitelist in
      let test = guard_redundant text config.blacklist in
      (
        λ h. (
          (λ listed. let clash = rw (test, black.1 listed) at h in cc),
          elim (Bool-cases (is_ip_in_list text config.whitelist)) [
            | inl w ↦ inr (white.0 w)
            | inr w ↦ inl (is_none-nil config.whitelist (ground (arith, h, w)))
          ],
        ),
        λ h. elim (Bool-cases (is_ip_in_list text config.blacklist)) [
          | inl b ↦ absurd (h.0 (black.0 b))
          | inr b ↦ elim h.1 [
            | inl empty ↦ rw (test, b, empty) refl
            | inr listed ↦ rw (test, b, white.1 listed) (ground arith)
          ]
        ],
      )
