-- ===== src/Main/Serving.antt =====
-- server/sawad.cpp: when main comes to accept connections.
use sa_wa.Base.{
  ℕ, zero, suc, ◌≡◌, ◌≢◌, ◌↔◌, ◌⊎◌, refl, sym, ap, ◌∙◌, subst, true, false, Option, none, some,
  List, ℤ, pos, negsuc, nonneg, Text, codes, ◌||◌, ◌&&◌, if◌then◌else◌, arith, Bool-cases,
  Option-cases, inl, inr,
}
use mathlib.Core.Option.{some-injective}
use sa_wa.Server.{server}
use sa_wa.Main.{
  Options, no_options, parse_options, described, given, Display, display_code, select_display,
  default, debug, daemon, quiet, parse_options-display,
}
use sa_wa.Main.Startup.{
  Environment, Built, built, fails, aborts, is_zero, new_display, towa_launched, derived,
  new_server, new_pool, Start, usage, failed, exits, serving, aborted, start_as_daemon,
  start_server, main,
}

-- The calls of the start-up that these options need have succeeded.
pub record Succeed (o : Options) (e : Environment) : Type 0 where
  pub screen : ((o.daemon || (o.debug || o.quiet)) ≡ true) ⊎ (is_zero e.screen_lock ≡ true)
  pub socket_made : e.socket ≢ negsuc 0
  pub port_free : nonneg e.bound ≡ true
  pub content :
      ((o.http ≡ false) × ((e.reopened || e.created) ≡ true))
      ⊎ ((o.http ≡ true) × ((o.towa ≡ false) ⊎ (towa_launched e ≡ built)))
  pub locks : (is_zero e.idle_lock && is_zero e.all_lock) ≡ true
  pub detached : (o.daemon ≡ false) ⊎ ((e.daemon_forked ≡ pos 0) × (nonneg e.sid ≡ true))

abbrev chosen : Options → Start
chosen o = serving (select_display (display_code o) o.http) o

server-none :
    (socket bound : ℤ) → socket ≢ negsuc 0 → nonneg bound ≡ true → server socket bound ≡ none
unfolding server
server-none (pos n) bound h b = ground (arith, b)
server-none (negsuc zero) bound h b = absurd (h refl)
server-none (negsuc (suc n)) bound h b = ground (arith, b)

server-some :
    (socket bound : ℤ) → server socket bound ≡ none → (socket ≢ negsuc 0) × (nonneg bound ≡ true)
unfolding server
server-some (pos n) bound h = (λ e. ground (arith, e), ground (arith, h))
server-some (negsuc zero) bound h = ground (arith, h)
server-some (negsuc (suc n)) bound h = (λ e. ground (arith, e), ground (arith, h))

Built-cases : (x : Built) → (x ≡ built) ⊎ (((code : ℕ) × (x ≡ fails code)) ⊎ (x ≡ aborts))
Built-cases built = inl refl
Built-cases (fails code) = inr (inl (code, refl))
Built-cases aborts = inr (inr refl)

int_cases : (z : ℤ) → (z ≡ pos 0) ⊎ (((n : ℕ) × (z ≡ pos (suc n))) ⊎ ((n : ℕ) × (z ≡ negsuc n)))
int_cases (pos zero) = inl refl
int_cases (pos (suc n)) = inr (inl (n, refl))
int_cases (negsuc n) = inr (inr (n, refl))

module _ (o : Options) (e : Environment) where
  derived-built :
      ((o.http ≡ false) × ((e.reopened || e.created) ≡ true))
        ⊎ ((o.http ≡ true) × ((o.towa ≡ false) ⊎ (towa_launched e ≡ built)))
      → derived o e ≡ built
  unfolding derived
  derived-built (inl (h, f)) = ground (arith, h, f)
  derived-built (inr (h, inl t)) = ground (arith, h, t)
  derived-built (inr (h, inr t)) = elim (Bool-cases o.towa) [
    | inl k ↦ ground (arith, h, k, t)
    | inr k ↦ ground (arith, h, k)
  ]

  built-derived :
      derived o e ≡ built
      → ((o.http ≡ false) × ((e.reopened || e.created) ≡ true))
        ⊎ ((o.http ≡ true) × ((o.towa ≡ false) ⊎ (towa_launched e ≡ built)))
  unfolding derived
  built-derived h = elim (Bool-cases o.http) [
    | inl k ↦ elim (Bool-cases o.towa) [
      | inl t ↦ inr (k, inr (ground (arith, k, t, h)))
      | inr t ↦ inr (k, inl t)
    ]
    | inr k ↦ elim (Bool-cases (e.reopened || e.created)) [
      | inl f ↦ inl (k, f)
      | inr f ↦ ground (arith, k, f, h)
    ]
  ]

  daemon-child :
      (child : Start)
      → (o.daemon ≡ false) ⊎ ((e.daemon_forked ≡ pos 0) × (nonneg e.sid ≡ true))
      → (if o.daemon then start_as_daemon e child else child) ≡ child
  unfolding start_as_daemon
  daemon-child child (inl h) = ground (arith, h)
  daemon-child child (inr (f, n)) = elim (Bool-cases o.daemon) [
    | inl h ↦ ground (arith, h, f, n)
    | inr h ↦ ground (arith, h)
  ]

  detached_of :
      (d : Display) (o' : Options) (child : Start)
      → (if o.daemon then start_as_daemon e child else child) ≡ serving d o'
      → ((o.daemon ≡ false) ⊎ ((e.daemon_forked ≡ pos 0) × (nonneg e.sid ≡ true)))
        × (serving d o' ≡ child)
  unfolding start_as_daemon
  detached_of d o' child h = elim (Bool-cases o.daemon) [
    | inr k ↦ (inl k, sym (ground (arith, k, h)))
    | inl k ↦ elim (int_cases e.daemon_forked) [
      | inl f ↦ elim (Bool-cases (nonneg e.sid)) [
        | inl n ↦ (inr (f, n), sym (ground (arith, k, f, n, h)))
        | inr n ↦ ground (arith, k, f, n, h)
      ]
      | inr (inl (n, f)) ↦ ground (arith, k, f, h)
      | inr (inr (n, f)) ↦ ground (arith, k, f, h)
    ]
  ]

  display-built :
      ((o.daemon || (o.debug || o.quiet)) ≡ true) ⊎ (is_zero e.screen_lock ≡ true)
      → new_display (select_display (display_code o) o.http) e ≡ built
  unfolding new_display select_display display_code
  display-built (inl h) = ground (arith, h)
  display-built (inr h) = ground (arith, h)

  built-display :
      new_display (select_display (display_code o) o.http) e ≡ built
      → ((o.daemon || (o.debug || o.quiet)) ≡ true) ⊎ (is_zero e.screen_lock ≡ true)
  unfolding new_display select_display display_code
  built-display h = elim (Bool-cases (o.daemon || (o.debug || o.quiet))) [
    | inl k ↦ inl k
    | inr k ↦ inr (ground (arith, k, h))
  ]

  start_server-serving : Succeed o e → start_server o e ≡ chosen o
  unfolding start_server new_server new_pool
  start_server-serving v =
      let up = server-none e.socket e.bound v.socket_made v.port_free in
      let made = derived-built v.content in
      let shown = display-built v.screen in
      ground (arith, shown, up, made, v.locks, daemon-child (chosen o) v.detached)

  behind_display :
      (o' : Options) (display : Display)
      → new_display (select_display (display_code o) o.http) e ≡ built
      → start_server o e ≡ serving display o'
      → Succeed o e × (serving display o' ≡ chosen o)
  unfolding start_server new_server new_pool
  behind_display o' display s h = elim (Option-cases (server e.socket e.bound)) [
    | inr (code, k) ↦ ground (arith, s, k, h)
    | inl k ↦ elim (Built-cases (derived o e)) [
      | inr (inl (code, f)) ↦ ground (arith, s, k, f, h)
      | inr (inr f) ↦ ground (arith, s, k, f, h)
      | inl f ↦ elim (Bool-cases (is_zero e.idle_lock && is_zero e.all_lock)) [
        | inr g ↦ ground (arith, s, k, f, g, h)
        | inl g ↦
            let (up, free) = server-some e.socket e.bound k in
            let (detached, same) =
              detached_of display o' (chosen o) (ground (arith, s, k, f, g, h)) in
            (
              record {
                screen = built-display s;
                socket_made = up;
                port_free = free;
                content = built-derived f;
                locks = g;
                detached = detached;
              },
              same,
            )
      ]
    ]
  ]

  serving-Succeed :
      (o' : Options) (display : Display)
      → start_server o e ≡ serving display o'
      → Succeed o e × (serving display o' ≡ chosen o)
  unfolding start_server
  serving-Succeed o' display h =
      elim (Built-cases (new_display (select_display (display_code o) o.http) e)) [
        | inr (inl (code, s)) ↦ ground (arith, s, h)
        | inr (inr s) ↦ ground (arith, s, h)
        | inl s ↦ behind_display o' display s h
      ]

unfoldable shown : Start → Option (Display × Options)
shown usage = none
shown (failed code) = none
shown (exits success) = none
shown (serving display o) = some (display, o)
shown aborted = none

serving-injective :
    (d d' : Display) (o o' : Options) → serving d o ≡ serving d' o' → (d ≡ d') × (o ≡ o')
unfolding shown
serving-injective d d' o o' h =
    let same = some-injective (d, o) (d', o') (ap shown h) in
    (ap (λ x. x.0) same, ap (λ x. x.1) same)

main-start_server :
    (args : List Text) (e : Environment)
    → given (codes "-help") args ≡ false
    → main args e ≡ start_server (described args no_options) e
unfolding main
main-start_server args e k =
    let parsed : parse_options args no_options ≡ some (described args no_options) =
      ground (arith, (parse_options-display args).0, k) in
    rw (main, parsed) refl

-- The server comes to accept connections exactly when -help is not among the arguments and the calls
-- that its start-up needs succeed, and has the options that were given then, with the display of the
-- daemon, else that of debugging, else the quiet one, else the default one with the labels of the
-- server's kind.
pub main-Succeed :
    (args : List Text) (e : Environment) (display : Display) (o : Options)
    → (main args e ≡ serving display o) ↔ (
        (given (codes "-help") args ≡ false)
        × (o ≡ described args no_options)
        × (display ≡ (
            if given (codes "-daemon") args
            then daemon
            else if given (codes "-debug") args
            then debug
            else if given (codes "-quiet") args
            then quiet
            else default (given (codes "-http") args)))
        × Succeed o e)
unfolding main
main-Succeed args e display o =
    let d : Options = described args no_options in
    let shows = (parse_options-display args).1 in
    (
      λ h. elim (Bool-cases (given (codes "-help") args)) [
        | inl k ↦ ground (arith, (parse_options-display args).0, k, h)
        | inr k ↦
            let (v, same) = serving-Succeed d e o display (sym (main-start_server args e k) ∙ h) in
            let (display_eq, o_eq) =
              serving-injective display (select_display (display_code d) d.http) o d same in
            (k, o_eq, display_eq ∙ shows, subst (λ x. Succeed x e) (sym o_eq) v)
      ],
      λ (k, o_eq, display_eq, v).
          main-start_server args e k
          ∙ start_server-serving d e (subst (λ x. Succeed x e) o_eq v)
          ∙ ap (λ x. serving x d) (shows ∙ sym display_eq)
          ∙ ap (serving display) (sym o_eq),
    )
