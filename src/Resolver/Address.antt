-- ===== src/Resolver/Address.antt =====
-- What `parseAddr` makes of an address.
use yeti_pg_ext.Base.{
  Bytes, ℕ, suc, ◌+◌, ◌≤◌, ◌<◌, false, ◌&&◌, [], ◌∷◌, ◌++◌, Option, none, some, ◌≡◌, refl, ap,
  arith, lt→leb_false, Bool-cases, Option-cases, inl, inr, ◌==◌, length, length-append,
}
use yeti_pg_ext.Base.CString.{memchr, has_byte, memchr_first, memchr-none}
use yeti_pg_ext.Base.Outcome.{ok, fault}
use yeti_pg_ext.Resolver.Uri.{
  sockaddr_size, protocol_size, host_size, UriComponents, shift, behind_slashes, strstr_scheme,
  atoi, component, parse_host, parse_addr,
}

abbrev pub scheme_mark : Bytes
scheme_mark = b':' ∷ b'/' ∷ b'/' ∷ []

strstr_scheme_first :
    (cs rest : Bytes)
    → has_byte b':' cs ≡ false
    → strstr_scheme (cs ++ (scheme_mark ++ rest)) ≡ some (cs, rest)
unfolding strstr_scheme
strstr_scheme_first [] rest h = refl
strstr_scheme_first (c ∷ cs) rest h = ground (arith, strstr_scheme_first cs rest)

strstr_scheme-none : (cs : Bytes) → has_byte b':' cs ≡ false → strstr_scheme cs ≡ none
unfolding strstr_scheme
strstr_scheme-none [] h = refl
strstr_scheme-none (c ∷ cs) h = ground (arith, strstr_scheme-none cs)

-- An address of protocol, host and port, of less than 128 bytes, is taken apart as it was put
-- together, if neither the protocol nor the host has a colon and each fits its array.
pub parse_addr_parts :
    (proto host port : Bytes)
    → has_byte b':' proto ≡ false
    → has_byte b':' host ≡ false
    → length proto ≤ protocol_size
    → length host ≤ host_size
    → length (proto ++ (scheme_mark ++ (host ++ (b':' ∷ port)))) < sockaddr_size
    → parse_addr (proto ++ (scheme_mark ++ (host ++ (b':' ∷ port))))
      ≡ ok (some (record { proto = proto; host = host; port = atoi port }))
unfolding parse_addr
parse_addr_parts proto host port p h lp lh l = ground (
  arith,
  strstr_scheme_first proto (host ++ (b':' ∷ port)) p,
  memchr_first b':' host port h,
  length-append proto (scheme_mark ++ (host ++ (b':' ∷ port))),
)

-- A host of 66 to 127 bytes with no colon in it is written past the end of its array.
pub parse_addr_fault :
    (host : Bytes)
    → has_byte b':' host ≡ false
    → host_size + 1 < length host
    → length host < sockaddr_size
    → parse_addr host ≡ fault
unfolding parse_addr
parse_addr_fault host h l k = ground (arith, strstr_scheme-none host h, memchr-none b':' host h)

behind_slashes-length :
    (cs after : Bytes) → behind_slashes cs ≡ some after → length after ≤ length cs
behind_slashes-length [] after h = cc
behind_slashes-length (c ∷ []) after h = cc
behind_slashes-length (c ∷ d ∷ cs) after h = elim (Bool-cases (c == b'/' && d == b'/')) [
  | inl e ↦ let same : cs ≡ after = cc (rw e at h) in omega (arith, ap length same)
  | inr e ↦ cc (rw e at h)
]

shift-eq-some :
    (c : ℕ) (o : Option (Bytes × Bytes)) (before after : Bytes)
    → shift c o ≡ some (before, after)
    → (tail : Bytes) × (o ≡ some (tail, after))
shift-eq-some c none before after h = cc
shift-eq-some c (some (b, a)) before after h = (b, ground arith)

strstr_scheme-length_cons :
    (c : ℕ) (cs before after : Bytes)
    → ((tail : Bytes) → strstr_scheme cs ≡ some (tail, after) → length after ≤ length cs)
    → strstr_scheme (c ∷ cs) ≡ some (before, after)
    → length after ≤ suc (length cs)
unfolding strstr_scheme
strstr_scheme-length_cons c cs before after recur h = elim (Bool-cases (c == b':')) [
  | inr e ↦ later (rw e at h)
  | inl e ↦ elim (Option-cases (behind_slashes cs)) [
    | inl n ↦ later (rw n at (rw e at h))
    | inr (a, f) ↦
        let same : a ≡ after = ground arith in
        omega (arith, ap length same, behind_slashes-length cs a f)
  ]
]
  where
    later : shift c (strstr_scheme cs) ≡ some (before, after) → length after ≤ suc (length cs)
    later k =
        let (tail, q) = shift-eq-some c (strstr_scheme cs) before after k in
        omega (arith, recur tail q)

strstr_scheme-length :
    (cs before after : Bytes) → strstr_scheme cs ≡ some (before, after) → length after ≤ length cs
strstr_scheme-length [] before after h = unfold strstr_scheme in cc
strstr_scheme-length (c ∷ cs) before after h =
    strstr_scheme-length_cons c cs before after (λ tail. strstr_scheme-length cs tail after) h

length-component : (comp : Bytes) → length (component host_size comp) ≤ host_size
length-component comp = ground arith

parse_host_short :
    (proto addr : Bytes)
    → length addr ≤ host_size
    → (c : UriComponents) × (parse_host proto addr ≡ ok c) × (length c.host ≤ host_size)
unfolding parse_host
parse_host_short proto addr h = elim (Option-cases (memchr b':' addr)) [
  | inl e ↦ (
    record { proto = proto; host = addr; port = (false, 0) },
    rw (e, parse_host) (ground arith),
    h,
  )
  | inr ((before, after), e) ↦ (
    record { proto = proto; host = component host_size before; port = atoi after },
    rw (e, parse_host),
    length-component before,
  )
]

-- The host that is found has room for a NUL.
abbrev pub HostFits : Option UriComponents → Type 0
HostFits none = Unit {0}
HostFits (some c) = length c.host ≤ host_size

-- An address of at most 64 bytes is parsed, or refused with -1, with no access out of bounds, and
-- leaves the host with a NUL behind it.
pub parse_addr_short :
    (addr : Bytes)
    → length addr ≤ host_size
    → (r : Option UriComponents) × (parse_addr addr ≡ ok r) × HostFits r
unfolding parse_addr
parse_addr_short addr h = elim (Bool-cases (length addr == 0)) [
  | inl e ↦ (none, rw e, tt)
  | inr n ↦ elim (Option-cases (strstr_scheme addr)) [
    | inl e ↦
        let (c, p, f) = parse_host_short [] addr h in
        (
          some c,
          rw (n, lt→leb_false 128 (length addr) (omega arith)) (rw (e, parse_addr) (rw p)),
          f,
        )
    | inr ((before, after), e) ↦
        let (c, p, f) =
          parse_host_short (component protocol_size before) after
            (omega (arith, strstr_scheme-length addr before after e)) in
        (
          some c,
          rw (n, lt→leb_false 128 (length addr) (omega arith)) (rw (e, parse_addr) (rw p)),
          f,
        )
  ]
]
