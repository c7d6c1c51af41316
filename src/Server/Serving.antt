-- ===== src/Server/Serving.antt =====
-- When the set-up of the server succeeds.
use csi_sharedhostpath.Base.{
  true, false, ◌⊎◌, inl, inr, Option, none, some, Option-cases, Bool-cases, [], ◌∷◌, ◌++◌, ◌≡◌, ◌≢◌,
  refl, arith, Text, nat_eq, text_eq, ◌==◌,
}
use csi_sharedhostpath.Base.Strings.{codes}
use csi_sharedhostpath.Endpoint.{Endpoint, parsed, invalid, panics, parse_endpoint, listen_on}
use csi_sharedhostpath.Endpoint.Accepts.{IsScheme, parse_endpoint_iff}
use csi_sharedhostpath.Host.Db.{Err, is_not_exist}
use csi_sharedhostpath.Host.Os.{Os}
use csi_sharedhostpath.Server.{serving, Services, serve, serve_on, listen_at, removal_fails}

-- Nothing is left of a file: it was removed, or it was not there.
abbrev pub IsGone : Option Err → Type 0
IsGone none = Unit
IsGone (some e) = is_not_exist e ≡ true

removal_fails-IsGone : (e : Option Err) → removal_fails e ≡ false → IsGone e
unfolding removal_fails
removal_fails-IsGone none gone = tt
removal_fails-IsGone (some e) gone = ground arith

Endpoint-cases :
    (e : Endpoint) → ((q : Text) × (a : Text) × (e ≡ parsed q a)) ⊎ ((e ≡ invalid) ⊎ (e ≡ panics))
Endpoint-cases (parsed q a) = inl (q, a, refl)
Endpoint-cases invalid = inr (inl refl)
Endpoint-cases panics = inr (inr refl)

is_unix : (q : Text) → (q == codes "unix") ≡ true → q ≡ codes "unix"
is_unix q same = ground arith

is_not_unix : (q : Text) → (q == codes "unix") ≡ false → q ≢ codes "unix"
is_not_unix q other same = ground arith

module _ {F : Type 0} (os : Os F) (listen : Text → Text → F → Option Err × F) where
  -- A socket's path is made absolute and its old file is gone; any other address is taken as it is
  -- written. The listening there succeeded.
  abbrev pub Listens : Text → Text → Text → Text → F → Type 0
  Listens q a proto addr s =
      ((q ≡ codes "unix")
        × (proto ≡ q)
        × (addr ≡ b'/' ∷ a)
        × IsGone (os.remove addr s).0
        × ((listen proto addr (os.remove addr s).1).0 ≡ none))
      ⊎ ((q ≢ codes "unix") × (proto ≡ q) × (addr ≡ a) × ((listen proto addr s).0 ≡ none))

  listen_at_serving :
      (q a : Text) (services services' : Services) (s : F) (proto addr : Text)
      → (listen_at os listen q a services s).0 ≡ serving proto addr services'
      → (services' ≡ services) × (proto ≡ q) × (addr ≡ a) × ((listen q a s).0 ≡ none)
  listen_at_serving q a services services' s proto addr serves =
      elim (Option-cases (listen q a s).0) [
        | inl heard ↦
            let same : serving q a services ≡ serving proto addr services' = ground arith in
            (cc, cc, cc, heard)
        | inr (e, failed) ↦ absurd (ground arith)
      ]

  serve_on_parsed :
      (q a : Text) (services services' : Services) (s : F) (proto addr : Text)
      → (serve_on os listen (listen_on q a) services s).0 ≡ serving proto addr services'
      → (services' ≡ services) × Listens q a proto addr s
  unfolding serve_on listen_on
  serve_on_parsed q a services services' s proto addr serves =
      elim (Bool-cases (q == codes "unix")) [
        | inl socket ↦ elim (Bool-cases (removal_fails (os.remove (b'/' ∷ a) s).0)) [
          | inl fails ↦ absurd (ground arith)
          | inr gone ↦
              let (e, s') = os.remove (b'/' ∷ a) s in
              let listened : (listen_at os listen q (b'/' ∷ a) services s').0
                  ≡ serving proto addr services' =
                ground arith in
              let (same, is_proto, is_addr, heard) =
                listen_at_serving q (b'/' ∷ a) services services' s' proto addr listened in
              (
                same,
                inl (
                  is_unix q socket,
                  is_proto,
                  is_addr,
                  rw is_addr (removal_fails-IsGone _ gone),
                  rw (is_proto, is_addr) heard,
                ),
              )
        ]
        | inr other ↦
            let listened : (listen_at os listen q a services s).0 ≡ serving proto addr services' =
              ground arith in
            let (same, is_proto, is_addr, heard) =
              listen_at_serving q a services services' s proto addr listened in
            (same, inr (is_not_unix q other, is_proto, is_addr, rw (is_proto, is_addr) heard))
      ]

  -- If `serve` gets to serving, it offers the servers that it was given, and the endpoint is a
  -- scheme, `unix` or `tcp` in letters of any case, then `://`, then a text that is not empty.
  -- For `unix` in lower case it listens at that text with a slash in front, after the old file
  -- there was removed or was not there; for any other scheme it listens at the text as it is
  -- written. The listening has succeeded.
  pub serve_serving :
      (endpoint : Text) (services services' : Services) (s : F) (proto addr : Text)
      → (serve os listen endpoint services s).0 ≡ serving proto addr services'
      → (services' ≡ services)
        × (q : Text) × (a : Text) × IsScheme q
        × (a ≢ [])
        × (endpoint ≡ q ++ (codes "://" ++ a))
        × Listens q a proto addr s
  unfolding serve
  serve_serving endpoint services services' s proto addr serves =
      elim (Endpoint-cases (parse_endpoint endpoint)) [
        | inr (inl bad) ↦ absurd (ground arith)
        | inr (inr bad) ↦ absurd (ground arith)
        | inl (q, a, taken) ↦
            let (scheme, full, written) = (parse_endpoint_iff endpoint q a).0 taken in
            let (same, listens) =
              serve_on_parsed q a services services' s proto addr (ground arith) in
            (same, q, a, scheme, full, written, listens)
      ]
