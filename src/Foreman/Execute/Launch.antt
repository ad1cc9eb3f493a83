-- ===== src/Foreman/Execute/Launch.antt =====
-- Which assignments a run records in the index.
use cloudvelo.Prelude.{
  String, List, [], ◌∷◌, ◌++◌, none, some, ◌≡◌, refl, sym, ◌∙◌, ap, ◌↔◌, ◌⊎◌, inl, inr, In,
  In-append, arith, Assoc, lookup, Option-cases,
}
use cloudvelo.Foreman.Types.{Hunt, Request}
use cloudvelo.Foreman.Outcome.{
  Outcome, done, failed, Effect, write_assigned, schedule_many, write_collection, effects, ◌>>◌,
}
use cloudvelo.Foreman.Execute.{
  Services, schedule_request_on_clients, write_assignments, start_request_of, launch_hunts,
}

-- No assignment is recorded while a hunt is scheduled.
abbrev NotAssigned : {A : Type 0} → Outcome A → Type 0
NotAssigned m = (c k : String) → ¬ In (write_assigned c k) (effects m)

done-bind :
    {A B : Type 0} (m : Outcome A) (k : Outcome B) {log : List Effect} {b : B}
    → (m >> k) ≡ done log b
    → (l₁ : List Effect) × (a : A) × (l₂ : List Effect) × (m ≡ done l₁ a)
      × (k ≡ done l₂ b)
      × (log ≡ l₁ ++ l₂)
done-bind (done l₁ a) (done l₂ b) e = (l₁, a, l₂, refl, ground arith, ground arith)
done-bind (done l₁ a) (failed l₂ x) e = cc
done-bind (failed l x) k e = cc

-- What the schedule of a request on these clients asks of the launcher, `c` among them.
abbrev pub Sends : Request → List String → String → List Effect → Type 0
Sends r cs c log =
    In (schedule_many r cs) log ⊎ In (write_collection (record r { client_id = c })) log

write_assignments-done :
    (k : String) (cs : List String) → (log : List Effect) × (write_assignments k cs ≡ done log tt)
unfolding write_assignments
write_assignments-done k [] = ([], refl)
write_assignments-done k (c ∷ cs) =
    let (log, e) = write_assignments-done k cs in (write_assigned c k ∷ log, rw e)

In-write_assignments :
    (h : String) (cs : List String) (c k : String)
    → In (write_assigned c k) (effects (write_assignments h cs)) ↔ (In c cs × (k ≡ h))
unfolding write_assignments
In-write_assignments h [] c k = (absurd, λ x. x.0)
In-write_assignments h (b ∷ bs) c k =
    let (log, e) = write_assignments-done h bs in
    let (f, g) = In-write_assignments h bs c k in
    rw e (
      λ i. elim i [
        | inl q ↦ (inl (ground arith), ground arith)
        | inr j ↦ let x = f (rw e j) in (inr x.0, x.1)
      ],
      λ x. elim x.0 [ inl q ↦ inl (cc (q, x.1)) | inr j ↦ inr (rw e at (g (j, x.1))) ],
    )

-- With these effects the run scheduled the hunt of one entry on all of the entry's clients, `c` among
-- them: all effects of the schedule, which ended with success, are the run's, and with them the
-- launcher was asked to collect the request on `c`.
pub record Launched (s : Services) (hunts : Assoc Hunt) (entries : Assoc (List String))
    (run : List Effect) (c k : String) : Type 0 where
  pub key : String
  pub clients : List String
  pub entry : In (key, clients) entries
  pub hunt : Hunt
  pub request : Request
  pub found : start_request_of (lookup key hunts) ≡ some (hunt, request)
  pub named : k ≡ hunt.hunt_id
  pub member : In c clients
  pub log : List Effect
  pub scheduled : schedule_request_on_clients s request clients ≡ done log tt
  pub within : (e : Effect) → In e log → In e run
  pub sends : Sends request clients c run

launch_skip :
    (s : Services) (hunts : Assoc Hunt) (key b : String) (bs : List String)
    (rest : Assoc (List String))
    → start_request_of (lookup key hunts) ≡ none
    → launch_hunts s hunts ((key, b ∷ bs) ∷ rest) ≡ launch_hunts s hunts rest
unfolding launch_hunts
launch_skip s hunts key b bs rest e = rw (e, launch_hunts)

launch_run :
    (s : Services) (hunts : Assoc Hunt) (key b : String) (bs : List String)
    (rest : Assoc (List String)) (h : Hunt) (r : Request)
    → start_request_of (lookup key hunts) ≡ some (h, r)
    → launch_hunts s hunts ((key, b ∷ bs) ∷ rest) ≡ (
        schedule_request_on_clients s r (b ∷ bs)
        >> (write_assignments h.hunt_id (b ∷ bs) >> launch_hunts s hunts rest))
unfolding launch_hunts
launch_run s hunts key b bs rest h r e = rw (e, launch_hunts)

-- A run that ends without an error records every client of every entry whose hunt has a request.
pub launch_hunts_complete :
    (s : Services) (hunts : Assoc Hunt) (entries : Assoc (List String)) {log : List Effect}
    (key : String) (clients : List String) (h : Hunt) (r : Request) (c : String)
    → launch_hunts s hunts entries ≡ done log tt
    → In (key, clients) entries
    → start_request_of (lookup key hunts) ≡ some (h, r)
    → In c clients
    → In (write_assigned c h.hunt_id) log
unfolding launch_hunts
launch_hunts_complete s hunts [] key clients h r c run i found m = absurd i
launch_hunts_complete s hunts ((key', []) ∷ rest) key clients h r c run i found m = elim i [
  | inl q ↦ absurd (rw (ap (λ (x : String × List String). x.1) q) at m)
  | inr j ↦ launch_hunts_complete s hunts rest key clients h r c run j found m
]
launch_hunts_complete s hunts ((key', b ∷ bs) ∷ rest) {log} key clients h r c run i found m =
    elim (Option-cases (start_request_of (lookup key' hunts))) [
      | inl e ↦ elim i [
        | inl q ↦ cc (found, e, ap (λ (x : String × List String). x.0) q)
        | inr j ↦
            launch_hunts_complete s hunts rest key clients h r c
              (sym (launch_skip s hunts key' b bs rest e) ∙ run) j found m
      ]
      | inr ((h', r'), e) ↦
          let (l₁, a₁, l₂, e₁, e₂, split₁) =
            done-bind (schedule_request_on_clients s r' (b ∷ bs)) _
              (sym (launch_run s hunts key' b bs rest h' r' e) ∙ run) in
          let (l₃, a₃, l₄, e₃, e₄, split₂) =
            done-bind (write_assignments h'.hunt_id (b ∷ bs)) (launch_hunts s hunts rest) e₂ in
          rw (split₁, split₂)
            ((In-append (write_assigned c h.hunt_id) l₁ (l₃ ++ l₄)).1 (
              inr (
                (In-append _ l₃ l₄).1 (elim i [
                  | inl q ↦
                      let same : (h', r') ≡ (h, r) =
                        cc (found, e, ap (λ (x : String × List String). x.0) q) in
                      let m' : In c (b ∷ bs) = rw (ap (λ (x : String × List String). x.1) q) at m in
                      inl (
                        rw e₃ at (
                          (In-write_assignments h'.hunt_id (b ∷ bs) c h.hunt_id).1
                            (m', ap (λ (x : Hunt × Request). (x.0).hunt_id) (sym same))))
                  | inr j ↦ inr (launch_hunts_complete s hunts rest key clients h r c e₄ j found m)
                ]))))
    ]
