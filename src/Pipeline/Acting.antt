-- ===== src/Pipeline/Acting.antt =====
-- Rules for a whole scan of pipeline.py.
use ronzz_nextcloud.Imap.{fetch_uids}
use ronzz_nextcloud.Prelude.{
  Bool, List, Option, String, [], false, if◌then◌else◌, none, some, str_eq, true, ℕ, ◌+◌, ◌∷◌, All,
  refl, ◌≡◌,
}
use ronzz_nextcloud.Config.{AccountConfig, DaemonConfig}
use ronzz_nextcloud.Sieve.{generate_block_script, push_block_script, sieve_call, upload}
use ronzz_nextcloud.Domain.{extract_domain}
use ronzz_nextcloud.Pipeline.{
  ClassificationResult, Detectors, act, after_move, already_blocked, announce, block, classify,
  detect, hit, maybe_register_offender, process_account, process_classified, process_messages,
  process_with, push_block, recent, register_offender, register_sender, scan_unseen, search_unseen,
  below, decide, result_id,
}
use ronzz_nextcloud.Imap.Rules.{
  IgnoresSessions, connect-Keeps, disconnect-keeps, emit-Runs, fetch_uids-Keeps, get_password-Runs,
  search-Keeps, select_folder_ex-Keeps,
}
use ronzz_nextcloud.Errors.Runs.{
  Keeps, Post, Runs-bind, Runs-finally, Runs-if, Runs-post, Runs-pure, Runs-try, Runs,
}
use ronzz_nextcloud.Errors.{Result, ok, raised}
use ronzz_nextcloud.World.{
  Audit, Env, Event, History, Message, World, fetched, record_event, searched, selected,
  sieve_activated, sieve_connected, sieve_put, source,
}
use ronzz_nextcloud.SieveBlock.{Candidates, list_blocked}

-- `P` does not look at the audit log.
pub record IgnoresAudit (P : World → Type 0) : Type 0 where
  pub audits : (w : World) (a : Audit) → P w → P (record w { audit = a ∷ w.audit })

-- Nor at the calls of managesieve.
pub record IgnoresUploads (P : World → Type 0) : Type 0 where
  pub connects :
      (w : World) (email : String) (r : Result (Unit {0}))
      → P w
      → P (record_event (sieve_connected email r) w)
  pub puts :
      (w : World) (name script : String) (r : Result Bool)
      → P w
      → P (record_event (sieve_put name script r) w)
  pub activates :
      (w : World) (name : String) (r : Result Bool)
      → P w
      → P (record_event (sieve_activated name r) w)

-- Nor at the table of senders and the clock.
pub record IgnoresTable (P : World → Type 0) : Type 0 where
  pub tables :
      (w : World) (c : Candidates) (n : ℕ) → P w → P (record w { candidates = c; readings = n })

-- The result is about the message.
abbrev pub IsOf : Message → ClassificationResult → Type 0
IsOf m r = (r.uid ≡ m.imap_uid) × (r.message_id ≡ result_id m)

abbrev IsOfSome : Message → Option ClassificationResult → Type 0
IsOfSome m none = Unit
IsOfSome m (some r) = IsOf m r

module _ (env : Env) (cfg : DaemonConfig) (account : AccountConfig) {P : World → Type 0}
    (audit : IgnoresAudit P) where
  module _ (s : IgnoresUploads P) where
    sieve_call-Keeps :
        {A : Type 0} (answer : History → Result A) (event : Result A → Event)
        → ((w : World) (r : Result A) → P w → P (record_event (event r) w))
        → Keeps P (sieve_call answer event)
    unfolding sieve_call
    sieve_call-Keeps {A} answer event f = record { at = λ w h. settled (answer w.history) w h }
      where
        settled :
            (r : Result A) (w : World) → P w → Post (λ a. P) (λ e. P) r (record_event (event r) w)
        settled (ok a) w h = f w (ok a) h
        settled (raised e) w h = f w (raised e) h

    upload-Keeps : (name script : String) → Keeps P (upload env account name script)
    unfolding upload
    upload-Keeps name script =
        Runs-try _ _
          (Runs-bind _ _ (sieve_call-Keeps _ _ (λ w r. s.connects w account.email r)) λ u.
            Runs-bind _ _ (sieve_call-Keeps _ _ (λ w r. s.puts w name script r)) λ b.
              Runs-bind _ _ (sieve_call-Keeps _ _ (λ w r. s.activates w name r))
                (λ b. Runs-pure true (λ w h. h)))
          (λ e. Runs-pure false (λ w h. h))

    push_block_script-Keeps : Keeps P (push_block_script env cfg.auto_block account cfg.dry_run)
    unfolding push_block_script
    push_block_script-Keeps = record {
      at = λ w h.
          pushed w h (generate_block_script (list_blocked account.email w.candidates))
            (str_eq (generate_block_script (list_blocked account.email w.candidates)) "")
            cfg.dry_run;
    }
      where
        pushed :
            (w : World)
            → P w
            → (script : String) (none_blocked dry : Bool)
            → let r : Result Bool × World =
                if none_blocked
                then (ok true, w)
                else if dry
                then (ok true, w)
                else upload env account cfg.auto_block.script_name script w in
              Post (λ a. P) (λ e. P) r.0 r.1
        pushed w h script true dry = h
        pushed w h script false true = h
        pushed w h script false false = (upload-Keeps cfg.auto_block.script_name script).at w h

    pub announce-Keeps :
        (apply : Bool) (domain : String) (count : ℕ)
        → Keeps P (announce env cfg account apply domain count)
    unfolding announce push_block
    announce-Keeps apply domain count =
        Runs-bind {Q = λ u. P} _ _ (emit-Runs _ (λ w h. audit.audits w _ h)) λ u.
          Runs-if apply _ _
            (λ e. Runs-bind _ _ (get_password-Runs env account.email (λ w h. h)) pushes)
            (λ e. Runs-pure tt (λ w h. h))
      where
        pushes : (pw : Option String) → Keeps P (push_block env cfg account domain pw)
        pushes none = Runs-pure tt (λ w h. h)
        pushes (some pw) = Runs-bind _ _ push_block_script-Keeps λ b.
            Runs-if b _ _ (λ e. emit-Runs _ (λ w h. audit.audits w _ h))
              (λ e. Runs-pure tt (λ w h. h))

  module _ (s : IgnoresUploads P) (t : IgnoresTable P) where
    hit-Keeps : (domain : String) → Keeps P (hit env cfg account domain)
    unfolding hit
    hit-Keeps domain = record { at = λ w h. t.tables w _ _ h }

    recent-Keeps : (domain : String) → Keeps P (recent env cfg account domain)
    unfolding recent
    recent-Keeps domain = record { at = λ w h. t.tables w w.candidates (w.readings + 1) h }

    already_blocked-Keeps : (domain : String) → Keeps P (already_blocked env cfg account domain)
    unfolding already_blocked
    already_blocked-Keeps domain = record { at = λ w h. h }

    block-Keeps : (domain : String) → Keeps P (block env cfg account domain)
    unfolding block
    block-Keeps domain = record { at = λ w h. t.tables w _ _ h }

    register_offender-Keeps :
        (apply : Bool) (domain : String) → Keeps P (register_offender env cfg account apply domain)
    unfolding register_offender
    register_offender-Keeps apply domain = Runs-bind _ _ (hit-Keeps domain) λ c.
        Runs-if (below env cfg account c) _ _ (λ b. Runs-pure tt (λ w h. h))
          λ b. Runs-bind _ _ (recent-Keeps domain) λ c.
            Runs-if (below env cfg account c) _ _ (λ b. Runs-pure tt (λ w h. h))
              λ b. Runs-bind _ _ (already_blocked-Keeps domain) λ already.
                Runs-if already _ _ (λ b. Runs-pure tt (λ w h. h))
                  λ b. Runs-bind _ _ (block-Keeps domain) λ u. announce-Keeps s apply domain c

    maybe_register_offender-Keeps :
        (result : ClassificationResult) (apply : Bool)
        → Keeps P (maybe_register_offender env cfg account result apply)
    unfolding maybe_register_offender register_sender
    maybe_register_offender-Keeps result apply =
        Runs-if _ _ _ (λ b. sender (extract_domain result.from_addr)) (λ b. Runs-pure tt (λ w h. h))
      where
        sender : (d : Option String) → Keeps P (register_sender env cfg account apply d)
        sender none = Runs-pure tt (λ w h. h)
        sender (some d) =
            Runs-if _ _ _ (λ b. Runs-pure tt (λ w h. h)) (λ b. register_offender-Keeps apply d)

    pub after_move-Keeps :
        (result : ClassificationResult) (folder : String) (done : Bool)
        → Keeps P (after_move env cfg account result folder done)
    unfolding after_move
    after_move-Keeps result folder false = Runs-pure _ (λ w h. h)
    after_move-Keeps result folder true =
        Runs-bind {Q = λ u. P} _ _ (emit-Runs _ (λ w h. audit.audits w _ h)) λ u.
          Runs-bind _ _ (maybe_register_offender-Keeps result true) (λ u. Runs-pure _ (λ w h. h))

  -- The action on what was found of a message keeps `P`.
  abbrev pub Acts : Message → Type 0
  Acts m =
      (folder : String) (r : ClassificationResult)
      → IsOf m r
      → Keeps P (act env cfg account folder r)

  module _ (detectors : Detectors) where
    detect-Keeps : {A : Type 0} (f : World → Result A) → Keeps P (detect f)
    unfolding detect
    detect-Keeps {A} f = record { at = λ w h. found (f w) w h }
      where
        found : (r : Result A) (w : World) → P w → Post (λ a. P) (λ e. P) r w
        found (ok a) w h = h
        found (raised e) w h = h

    classify-Runs :
        (m : Message)
        → Runs P (classify env cfg account detectors m) (λ r w. P w × IsOf m r) (λ e. P)
    unfolding classify decide
    classify-Runs m = Runs-bind _ _ (detect-Keeps _) λ b.
        Runs-bind _ _ (detect-Keeps _)
          λ p. Runs-bind _ _ (detect-Keeps _) λ s. Runs-pure _ (λ w h. (h, (refl, refl)))

    process_classified-Keeps :
        (folder : String) (m : Message) (r : Option ClassificationResult)
        → Acts m
        → Runs
            (λ w. P w × IsOfSome m r)
            (process_classified env cfg account detectors folder r)
            (λ n. P)
            (λ e. P)
    unfolding process_classified
    process_classified-Keeps folder m none acts = Runs-pure _ (λ w h. h.0)
    process_classified-Keeps folder m (some r) acts = record {
      at = λ w h. (processed h.1).at w h.0;
    }
      where
        processed :
            IsOf m r → Keeps P (process_classified env cfg account detectors folder (some r))
        processed o = Runs-bind _ _ (acts _ r o) λ a.
            Runs-bind {Q = λ u. P} _ _ (emit-Runs _ (λ w h. audit.audits w _ h))
              (λ u. Runs-pure _ (λ w h. h))

    pub process_messages-Keeps :
        (folder : String) (ms : List Message) (n : ℕ)
        → All Acts ms
        → Keeps P (process_messages env cfg account detectors folder ms n)
    unfolding process_messages
    process_messages-Keeps folder [] n acts = Runs-pure _ (λ w h. h)
    process_messages-Keeps folder (m ∷ ms) n acts =
        Runs-bind _ _
          (Runs-try {F = λ e. P} _ _
            (Runs-bind _ _ (classify-Runs m) (λ r. Runs-pure (some r) (λ w h. h)))
            (λ e. Runs-pure none (λ w h. (h, tt))))
          λ r.
            Runs-bind _ _ (process_classified-Keeps folder m r acts.0)
              (λ k. process_messages-Keeps folder ms (n + k) acts.1)

    -- The whole scan keeps what the action on each message keeps.
    pub process_account-Runs :
        (R : List Message → World → Type 0) (s : IgnoresSessions P) (folder : String)
        → ((w : World) (r : Result Bool) → P w → P (record_event (selected source folder true r) w))
        → ((w : World) (r : Result (Option (List ℕ)))
            → P w
            → P (record_event (searched source "UNSEEN" r) w))
        → ((uids : List ℕ) → Runs P (fetch_uids env source folder uids) R (λ e. P))
        → ((ms : List Message)
            → Runs
                (R ms)
                (process_messages env cfg account detectors folder ms 0)
                (λ n. P)
                (λ e. P))
        → Keeps P (process_account env cfg account detectors folder)
    unfolding process_account process_with scan_unseen search_unseen
    process_account-Runs R s folder f g fetches messages =
        Runs-bind _ _ (get_password-Runs env account.email (λ w h. h)) runs
      where
        scans : Keeps P (scan_unseen env cfg account detectors folder)
        scans = Runs-bind _ _ (select_folder_ex-Keeps env source folder true f) λ found.
            Runs-if found _ _
              (λ b.
                Runs-bind _ _
                  (Runs-try _ _ (search-Keeps env source "UNSEEN" g) (λ e. Runs-pure [] (λ w h. h)))
                  λ uids. Runs-bind _ _ (fetches uids) messages)
              (λ b. Runs-pure 0 (λ w h. h))

        runs : (pw : Option String) → Keeps P (process_with env cfg account detectors folder pw)
        runs none = Runs-pure 0 (λ w h. h)
        runs (some pw) = Runs-finally _ _ (
            Runs-post _ (Runs-bind _ _ (connect-Keeps s env source _ pw) (λ u. scans))
              (λ n w h. disconnect-keeps s env source w h)
              (λ e w h. disconnect-keeps s env source w h))

    pub process_account-Keeps :
        (acts : (folder : String) (result : ClassificationResult)
          → Keeps P (act env cfg account folder result))
        (s : IgnoresSessions P) (folder : String)
        → ((w : World) (r : Result Bool) → P w → P (record_event (selected source folder true r) w))
        → ((w : World) (r : Result (Option (List ℕ)))
            → P w
            → P (record_event (searched source "UNSEEN" r) w))
        → ((w : World) (uids : List ℕ) (r : Result (Option (List (Option Message))))
            → P w
            → P (record_event (fetched source uids r) w))
        → Keeps P (process_account env cfg account detectors folder)
    process_account-Keeps acts s folder f g x =
        process_account-Runs (λ ms. P) s folder f g
          (λ uids. fetch_uids-Keeps env source folder uids f x)
          (λ ms. process_messages-Keeps folder ms 0 (always ms))
      where
        always : (ms : List Message) → All Acts ms
        always [] = tt
        always (m ∷ ms) = ((λ folder r o. acts folder r), always ms)
