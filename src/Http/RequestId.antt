-- ===== src/Http/RequestId.antt =====
-- internal/platform/reqid/reqid.go: Middleware and sanitize. strings.TrimSpace, the runes that Go reads
-- from a string, and the identifier of internal/platform/idgen are parameters.
use event_stream_platform.Prelude.{
  ℕ, ◌≤◌, ◌≡◌, refl, ◌⊎◌, inl, inr, Bool, true, false, ◌&&◌, ◌||◌, List, [], ◌∷◌, length, ltb, leb,
  ◌==◌, if◌then◌else◌, arith, Bool-cases,
}
use event_stream_platform.Event.Types.{Bytes}

abbrev pub max_length : ℕ
max_length = 64

-- `a` to `z`, `A` to `Z`, `0` to `9`, `-`, `_` and `.`
unfoldable pub is_safe : ℕ → Bool
is_safe c =
    (leb 97 c && leb c 122)
    || (leb 65 c && leb c 90)
    || (leb 48 c && leb c 57)
    || (c == 45)
    || (c == 95)
    || (c == 46)

abbrev pub all_safe : List ℕ → Bool
all_safe [] = true
all_safe (c ∷ cs) = if is_safe c then all_safe cs else false

-- The id of the response's header and of the context that the next handler sees.
pub record Tagged : Type 0 where
  pub header : Bytes
  pub context : Bytes

module _ (trim : Bytes → Bytes) (runes : Bytes → List ℕ) where
  unfoldable pub sanitize : Bytes → Bytes
  sanitize raw =
      let id = trim raw in
      if (length id == 0) || ltb max_length (length id)
      then []
      else if all_safe (runes id)
      then id
      else []

  unfoldable pub middleware : (minted raw : Bytes) → Tagged
  middleware minted raw =
      let id = sanitize raw in
      let sent = if length id == 0 then minted else id in record { header = sent; context = sent }

  -- Safe to echo: short, and of the allowed characters.
  record IsSafe (id : Bytes) : Type 0 where
    short : length id ≤ max_length
    allowed : all_safe (runes id) ≡ true

  sanitize-IsSafe : (raw : Bytes) → (sanitize raw ≡ []) ⊎ IsSafe (sanitize raw)
  unfolding sanitize
  sanitize-IsSafe raw =
      let id = trim raw in
      elim (Bool-cases ((length id == 0) || ltb max_length (length id))) [
        | inl q ↦ inl (rw q refl)
        | inr q ↦ elim (Bool-cases (all_safe (runes id))) [
          | inr k ↦ inl (rw (q, k) refl)
          | inl k ↦ inr (rw (q, k, sanitize) (record { short = ground (arith, q); allowed = k }))
        ]
      ]

  -- The response and the next handler have one id: the minted one, or a text that is safe to echo.
  middleware-IsSafe :
      (minted raw : Bytes)
      → ((middleware minted raw).header ≡ (middleware minted raw).context)
        × (((middleware minted raw).header ≡ minted) ⊎ IsSafe (middleware minted raw).header)
  unfolding middleware
  middleware-IsSafe minted raw = (
    refl,
    elim (sanitize-IsSafe raw) [
      | inl e ↦ inl (rw (e, middleware) refl)
      | inr h ↦ elim (Bool-cases (length (sanitize raw) == 0)) [
        | inl q ↦ inl (rw (q, middleware) refl)
        | inr q ↦ inr (rw (q, middleware) h)
      ]
    ],
  )
