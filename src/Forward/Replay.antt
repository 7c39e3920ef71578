-- ===== src/Forward/Replay.antt =====
-- A replayed body is the buffered one.
use zero_shim.Prelude.{
  ℕ, zero, suc, ◌+◌, ◌≡◌, refl, Option, none, some, List, [], ◌∷◌, ◌++◌, append-nil, arith,
}
use zero_shim.Bytes.{Bytes}
use zero_shim.Http.{Headers}
use zero_shim.Forward.{ReplayBody, Frame, body_bytes, trailer_map, replay, poll_frame}

-- The frames of the first `n` polls, up to the end of the stream.
pub poll_all : ℕ → ReplayBody → List Frame
poll_all zero r = []
poll_all (suc n) r =
    let rest = poll_all n (poll_frame r).0 in
    elim (poll_frame r).1 [ none ↦ [] | some f ↦ f ∷ rest ]

abbrev payload : Frame → Bytes
payload (body_bytes b) = b
payload (trailer_map t) = []

abbrev pub joined : List Frame → Bytes
joined [] = []
joined (f ∷ fs) = payload f ++ joined fs

abbrev pub trailers_of : List Frame → Option Headers
trailers_of [] = none
trailers_of (body_bytes b ∷ fs) = trailers_of fs
trailers_of (trailer_map t ∷ fs) = some t

-- Polled three times or more, a replayed body yields exactly the buffered bytes and the client's
-- trailers, if it sent any, and then ends: more polls yield no more.
pub replay_exact :
    (bytes : Bytes) (trailers : Option Headers) (n : ℕ)
    → (joined (poll_all (3 + n) (replay bytes trailers)) ≡ bytes)
      × (trailers_of (poll_all (3 + n) (replay bytes trailers)) ≡ trailers)
      × (poll_all (3 + n) (replay bytes trailers) ≡ poll_all 3 (replay bytes trailers))
replay_exact bytes trailers n =
    rw (let e : 3 + n ≡ suc (suc (suc n)) = omega arith in e) (polls bytes trailers)
  where
    polls :
        (b : Bytes) (t : Option Headers)
        → (joined (poll_all (suc (suc (suc n))) (replay b t)) ≡ b)
          × (trailers_of (poll_all (suc (suc (suc n))) (replay b t)) ≡ t)
          × (poll_all (suc (suc (suc n))) (replay b t) ≡ poll_all 3 (replay b t))
    polls [] none = unfold poll_all replay poll_frame in (refl, refl, refl)
    polls [] (some t) = unfold poll_all replay poll_frame in (refl, refl, refl)
    polls (c ∷ b) none = unfold poll_all replay poll_frame in (append-nil (c ∷ b), refl, refl)
    polls (c ∷ b) (some t) = unfold poll_all replay poll_frame in (append-nil (c ∷ b), refl, refl)
