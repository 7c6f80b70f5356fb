-- ===== src/Tracer/Propagate/Choice.antt =====
-- tracer.go: the propagators that `CreateTracer` chooses for the formats.
use lightstep_tracer_go.Tracer.Propagate.{
  AnyPropagator, Propagators, find_propagator, set_propagator, add_propagators, create_propagators,
}
use lightstep_tracer_go.Propagation.Binary.{Codec}
use lightstep_tracer_go.Base.{
  ℕ, Option, ◌≡◌, some, none, [], ◌∷◌, if◌then◌else◌, ◌==◌, refl, arith, ◌∙◌, Bool, ap, true, false,
  otherwise,
}

-- The last propagator of a format.
abbrev pub last_propagator : ℕ → Propagators → Option AnyPropagator
last_propagator f [] = none
last_propagator f ((g, p) ∷ ps) = otherwise (last_propagator f ps) (if g == f then some p else none)

find-set :
    (f g : ℕ) (p : AnyPropagator) (ps : Propagators)
    → find_propagator f (set_propagator g p ps) ≡ (if g == f then some p else find_propagator f ps)
unfolding find_propagator set_propagator
find-set f g p [] = refl
find-set f g p ((h, q) ∷ ps) = let rest = find-set f g p ps in grind arith

otherwise-set :
    (o : Option AnyPropagator) (p : AnyPropagator) (b : Bool) (d : Option AnyPropagator)
    → otherwise o (if b then some p else d) ≡ otherwise (otherwise o (if b then some p else none)) d
otherwise-set (some q) p b d = refl
otherwise-set none p true d = refl
otherwise-set none p false d = refl

find-add :
    (f : ℕ) (ps user : Propagators)
    → find_propagator f (add_propagators ps user)
      ≡ otherwise (last_propagator f user) (find_propagator f ps)
unfolding add_propagators
find-add f ps [] = refl
find-add f ps ((g, p) ∷ user) =
    find-add f (set_propagator g p ps) user
    ∙ ap (otherwise (last_propagator f user)) (find-set f g p ps)
    ∙ otherwise-set (last_propagator f user) p (g == f) (find_propagator f ps)

-- The user's last propagator for a format is chosen, and the tracer's own where the user has none.
pub find-create_propagators :
    (codec : Codec) (user : Propagators) (f : ℕ)
    → find_propagator f (create_propagators codec user)
      ≡ otherwise (last_propagator f user) (find_propagator f (create_propagators codec []))
unfolding create_propagators add_propagators
find-create_propagators codec user f = find-add f _ user
