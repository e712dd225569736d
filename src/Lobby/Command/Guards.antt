-- ===== src/Lobby/Command/Guards.antt =====
-- When a command is accepted, and that a refusal changes nothing.
use robocolony.Common.{
  ℕ, ◌==◌, ◌≡◌, refl, sym, ap, ◌∙◌, ◌↔◌, true, false, inl, inr, Bool-cases, Option-cases,
  List-cases, String, [], ◌∷◌, Option, none, some, ◌⊎◌,
}
use robocolony.Sim.World.State.{Robot}
use robocolony.Sim.World.Access.{robot_by_id, at_own_base}
use robocolony.Prog.Structure.{validate_errors}
use robocolony.Prog.Runtime.{Program, Unmarshal, decoded, decode}
use robocolony.Lobby.Match.{Match}
use robocolony.Lobby.Command.{
  CommandError, program_does_not_load, match_over, no_robot, other_colony, not_at_base,
  invalid_program, robot_of, install_program, apply_live, install_live,
}
use robocolony.Lobby.Command.Repeats.{Decoded-cases}

module _ {F G : Type 0} (unmarshal : Unmarshal) (colony id : ℕ) (m : Match F G) where
  -- What an install asks for: the match runs; the text is a program that loads; the robot exists, is
  -- of the player's colony and at its own base; and the program has no errors on its blueprint.
  pub record MayInstall (body : String) : Type 0 where
    pub program : Program
    pub robot : Robot
    pub loads : decode unmarshal body ≡ decoded program
    pub running : m.finished ≡ false
    pub found : robot_by_id m.world id ≡ some robot
    pub own : (robot.colony == colony) ≡ true
    pub home : at_own_base m.world robot ≡ true
    pub valid : validate_errors program.rules robot.blueprint ≡ []

  MayInstall→accepted :
      (name body : String)
      → MayInstall body
      → (install_live unmarshal colony id name body m).1 ≡ none
  unfolding install_live apply_live install_program robot_of
  MayInstall→accepted name body k = rw (k.loads, k.running, k.found, k.own, k.home, k.valid) refl

  -- An install is allowed, or refused with an error and with no change.
  install_outcome :
      (name body : String)
      → MayInstall body
        ⊎ ((e : CommandError) × (install_live unmarshal colony id name body m ≡ (m, some e)))
  unfolding install_live apply_live install_program robot_of
  install_outcome name body = elim (Decoded-cases (decode unmarshal body)) [
    | inl (x, d) ↦ inr (program_does_not_load, rw d refl)
    | inr (p, d) ↦ elim (Bool-cases m.finished) [
      | inl e ↦ inr (match_over, rw (d, e) refl)
      | inr e ↦ elim (Option-cases (robot_by_id m.world id)) [
        | inl n ↦ inr (no_robot, rw (d, e, n) refl)
        | inr (r, n) ↦ elim (Bool-cases (r.colony == colony)) [
          | inr c ↦ inr (other_colony, rw (d, e, n, c) refl)
          | inl c ↦ elim (Bool-cases (at_own_base m.world r)) [
            | inr b ↦ inr (not_at_base, rw (d, e, n, c, b) refl)
            | inl b ↦ elim (List-cases (validate_errors p.rules r.blueprint)) [
              | inr (i, is, v) ↦ inr (invalid_program (i ∷ is), rw (d, e, n, c, b, v) refl)
              | inl v ↦ inl (record {
                program = p;
                robot = r;
                loads = d;
                running = e;
                found = n;
                own = c;
                home = b;
                valid = v;
              })
            ]
          ]
        ]
      ]
    ]
  ]

  accepted→MayInstall :
      (name body : String)
      → (install_live unmarshal colony id name body m).1 ≡ none
      → MayInstall body
  accepted→MayInstall name body h = elim (install_outcome name body) [
    | inl k ↦ k
    | inr (e, q) ↦
        let no : some e ≡ none = sym (ap (λ (x : Match F G × Option CommandError). x.1) q) ∙ h in
        absurd cc
  ]

  -- An install is accepted exactly if the match runs, the text loads as a program, the robot exists,
  -- is of the player's colony and stands at its own base, and the program has no errors on the
  -- robot's blueprint. An install that is not accepted leaves the match as it was.
  pub install_live_iff :
      (name body : String)
      → (((install_live unmarshal colony id name body m).1 ≡ none) ↔ MayInstall body)
        × ((e : CommandError)
            → (install_live unmarshal colony id name body m).1 ≡ some e
            → (install_live unmarshal colony id name body m).0 ≡ m)
  install_live_iff name body = (
    (accepted→MayInstall name body, MayInstall→accepted name body),
    λ e h. elim (install_outcome name body) [
      | inl k ↦ let no : none ≡ some e = sym (MayInstall→accepted name body k) ∙ h in absurd cc
      | inr (x, q) ↦ ap (λ (y : Match F G × Option CommandError). y.0) q
    ],
  )
