-- ===== src/RateLimit/Chain.antt =====
-- A forwarded chain cannot name a client that no trusted proxy has observed.
use flipradar.RateLimit.Client.{
  missing, entries, parse_entries, parse_forwarded_for, Address, resolve, reverse, first_untrusted,
  Forwarded, address,
}
use flipradar.Base.{
  ◌≡◌, List, [], ◌∷◌, ◌++◌, All, true, false, Bool, refl, ap, ◌∙◌, sym, some, All-append, map,
  Option, none, is_some, if◌then◌else◌, ◌&&◌, Bool-cases, inl, inr,
}

abbrev every_parses : List (Option Address) → Bool
every_parses [] = true
every_parses (part ∷ parts) = is_some part && every_parses parts

-- The addresses of the entries that parse.
abbrev parsed : List (Option Address) → List Address
parsed [] = []
parsed (none ∷ parts) = parsed parts
parsed (some a ∷ parts) = a ∷ parsed parts

parse_entries-some : (xs : List Address) → parse_entries (map some xs) ≡ some xs
unfolding parse_entries
parse_entries-some [] = refl
parse_entries-some (x ∷ xs) = rw (parse_entries-some xs) refl

parse_entries-append :
    (parts : List (Option Address)) (xs : List Address)
    → parse_entries (parts ++ map some xs)
      ≡ (if every_parses parts then some (parsed parts ++ xs) else none)
unfolding parse_entries
parse_entries-append [] xs = parse_entries-some xs
parse_entries-append (none ∷ parts) xs = refl
parse_entries-append (some a ∷ parts) xs = elim (Bool-cases (every_parses parts)) [
  | inl e ↦ rw (parse_entries-append parts xs, e) refl
  | inr e ↦ rw (parse_entries-append parts xs, e) refl
]

parse_forwarded_for-append :
    (parts : List (Option Address)) (x : Address) (xs : List Address)
    → parse_forwarded_for (parts ++ (some x ∷ map some xs))
      ≡ (if every_parses parts then some (parsed parts ++ (x ∷ xs)) else none)
unfolding parse_forwarded_for
parse_forwarded_for-append [] x xs = parse_entries-append [] (x ∷ xs)
parse_forwarded_for-append (part ∷ parts) x xs = parse_entries-append (part ∷ parts) (x ∷ xs)

module _ (is_trusted : Address → Bool) (direct_peer : Address) where
  append_assoc : (xs ys zs : List Address) → (xs ++ ys) ++ zs ≡ xs ++ (ys ++ zs)
  append_assoc [] ys zs = refl
  append_assoc (x ∷ xs) ys zs = ap (λ l. x ∷ l) (append_assoc xs ys zs)

  append_nil : (xs : List Address) → xs ++ [] ≡ xs
  append_nil [] = refl
  append_nil (x ∷ xs) = ap (λ l. x ∷ l) (append_nil xs)

  reverse-append : (xs ys : List Address) → reverse (xs ++ ys) ≡ reverse ys ++ reverse xs
  reverse-append [] ys = sym (append_nil (reverse ys))
  reverse-append (x ∷ xs) ys =
      ap (λ l. l ++ (x ∷ [])) (reverse-append xs ys)
      ∙ append_assoc (reverse ys) (reverse xs) (x ∷ [])

  first_untrusted_hit :
      (a : Address) (rest : List Address)
      → is_trusted a ≡ false
      → first_untrusted is_trusted direct_peer (a ∷ rest) ≡ a
  unfolding first_untrusted
  first_untrusted_hit a rest e = rw e refl

  first_untrusted_skip :
      (xs rest : List Address)
      → All (λ a. is_trusted a ≡ true) xs
      → first_untrusted is_trusted direct_peer (reverse xs ++ rest)
        ≡ first_untrusted is_trusted direct_peer rest
  unfolding first_untrusted
  first_untrusted_skip [] rest h = refl
  first_untrusted_skip (x ∷ xs) rest h =
      ap (first_untrusted is_trusted direct_peer) (append_assoc (reverse xs) (x ∷ []) rest)
      ∙ first_untrusted_skip xs (x ∷ rest) h.1
      ∙ rw h.0 refl

  found_behind :
      (spoofed proxies : List Address) (observed : Address)
      → is_trusted direct_peer ≡ true
      → is_trusted observed ≡ false
      → All (λ a. is_trusted a ≡ true) proxies
      → first_untrusted is_trusted direct_peer
          (reverse ((spoofed ++ (observed ∷ proxies)) ++ (direct_peer ∷ [])))
        ≡ observed
  found_behind spoofed proxies observed trusted e h =
      let back : reverse ((spoofed ++ (observed ∷ proxies)) ++ (direct_peer ∷ []))
          ≡ reverse (proxies ++ (direct_peer ∷ [])) ++ (observed ∷ reverse spoofed) =
        ap reverse (append_assoc spoofed (observed ∷ proxies) (direct_peer ∷ []))
        ∙ reverse-append spoofed (observed ∷ (proxies ++ (direct_peer ∷ [])))
        ∙ append_assoc (reverse (proxies ++ (direct_peer ∷ []))) (observed ∷ [])
            (reverse spoofed) in
      ap (first_untrusted is_trusted direct_peer) back
      ∙ first_untrusted_skip (proxies ++ (direct_peer ∷ [])) (observed ∷ reverse spoofed)
          (All-append (λ a. is_trusted a ≡ true) proxies (direct_peer ∷ []) h (trusted, tt))
      ∙ first_untrusted_hit observed (reverse spoofed) e

  untrusted_peer :
      (forwarded : Forwarded)
      → is_trusted direct_peer ≡ false
      → resolve is_trusted (some direct_peer) forwarded ≡ address direct_peer
  unfolding resolve
  untrusted_peer missing e = refl
  untrusted_peer (entries parts) e = rw e refl

  behind :
      (spoofed : List (Option Address)) (proxies : List Address) (observed : Address) (b d : Bool)
      → is_trusted observed ≡ false
      → All (λ a. is_trusted a ≡ true) proxies
      → is_trusted direct_peer ≡ b
      → every_parses spoofed ≡ d
      → resolve is_trusted
          (some direct_peer)
          (entries (spoofed ++ (some observed ∷ map some proxies)))
        ≡ address (if b && d then observed else direct_peer)
  unfolding resolve
  behind spoofed proxies observed true true e h peer parse =
      rw
        (
          peer,
          parse_forwarded_for-append spoofed observed proxies,
          parse,
          found_behind (parsed spoofed) proxies observed peer e h,
        )
        refl
  behind spoofed proxies observed true false e h peer parse =
      rw (peer, parse_forwarded_for-append spoofed observed proxies, parse) refl
  behind spoofed proxies observed false d e h peer parse = rw peer refl

  -- Behind a trusted peer whose header ends in an address that is not trusted and then trusted
  -- proxies, the client is that address if every entry before it parses, and the peer itself if one
  -- does not. A peer that is not trusted is itself the client, whatever the header holds.
  pub resolve-spoofed :
      (spoofed : List (Option Address)) (proxies : List Address) (observed : Address)
      (forwarded : Forwarded)
      → is_trusted observed ≡ false
      → All (λ a. is_trusted a ≡ true) proxies
      → (resolve is_trusted
            (some direct_peer)
            (entries (spoofed ++ (some observed ∷ map some proxies)))
          ≡ address
              (if is_trusted direct_peer && every_parses spoofed then observed else direct_peer))
        × (is_trusted direct_peer ≡ false
            → resolve is_trusted (some direct_peer) forwarded ≡ address direct_peer)
  resolve-spoofed spoofed proxies observed forwarded e h = (
    behind spoofed proxies observed (is_trusted direct_peer) (every_parses spoofed) e h refl refl,
    λ untrusted. untrusted_peer forwarded untrusted,
  )
