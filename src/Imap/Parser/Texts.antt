-- ===== src/Imap/Parser/Texts.antt =====
-- Which parts of a message parse_email_message of mailwatch/src/mailwatch/email/imap/parser.py takes
-- for its texts.
use ronzz_nextcloud.Prelude.{
  Bool, List, Option, String, [], if◌then◌else◌, none, not, refl, some, str_eq, ℕ, ◌&&◌, ◌∷◌, ◌≡◌,
  arith, eq_iff, ◌∙◌, ap, false, true, Bool-cases, Option-cases, inl, inr, ◌⊎◌,
}
use ronzz_nextcloud.Imap.Helpers.{◌>>=◌}
use ronzz_nextcloud.Imap.Parser.Bodies.{
  Found, PartInfo, add_part, add_parts, is_attached, is_inline, part_text, Parts, find_bodies,
  nothing_found, part, walk, walk_all, single,
}

-- A part of a type that is no attachment.
abbrev pub is_text_part : String → PartInfo → Bool
is_text_part ct p = not (is_attached p) && not (is_inline p) && str_eq p.content_type ct

html_not_plain : (ct : String) → str_eq ct "text/html" ≡ true → str_eq ct "text/plain" ≡ false
html_not_plain ct h = rw ((eq_iff ct "text/html").0 h) refl

module _ (decode : String → String → Option String) (uuid : ℕ → String) (store : Bool) where
  -- The first text that is not empty among the parts of a type, behind a text that is found.
  abbrev pub first_text : String → String → List PartInfo → Option String
  first_text ct found [] = some found
  first_text ct found (p ∷ ps) =
      if is_text_part ct p && str_eq found ""
      then (elim (part_text decode uuid store p) [ none ↦ none | some t ↦ first_text ct t ps ])
      else first_text ct found ps

  -- The step of the search for the plain text and of that for the HTML text.
  body_step :
      (p : PartInfo) (f g : Found) (ps : List PartInfo)
      → add_part decode uuid store p f ≡ some g
      → first_text "text/plain" f.body (p ∷ ps) ≡ first_text "text/plain" g.body ps
  unfolding add_part
  body_step p f g ps h = ground arith

  html_step :
      (p : PartInfo) (f g : Found) (ps : List PartInfo)
      → add_part decode uuid store p f ≡ some g
      → first_text "text/html" f.html_body (p ∷ ps) ≡ first_text "text/html" g.html_body ps
  unfolding add_part
  html_step p f g ps h = ground (arith, html_not_plain p.content_type)

  no_text :
      (p : PartInfo) (f : Found) (ps : List PartInfo)
      → add_part decode uuid store p f ≡ none
      → (first_text "text/plain" f.body (p ∷ ps) ≡ none)
        ⊎ (first_text "text/html" f.html_body (p ∷ ps) ≡ none)
  unfolding add_part
  no_text p f ps h = elim (Bool-cases (str_eq p.content_type "text/plain" && str_eq f.body "")) [
    | inl e ↦ inl (ground arith)
    | inr e ↦ inr (ground (arith, html_not_plain p.content_type))
  ]

  add_parts_stop :
      (p : PartInfo) (f : Found) (ps : List PartInfo)
      → add_part decode uuid store p f ≡ none
      → add_parts decode uuid store (p ∷ ps) f ≡ none
  unfolding add_parts ◌>>=◌
  add_parts_stop p f ps h = ap (λ o. o >>= (λ g. add_parts decode uuid store ps g)) h

  add_parts_go :
      (p : PartInfo) (f g : Found) (ps : List PartInfo)
      → add_part decode uuid store p f ≡ some g
      → add_parts decode uuid store (p ∷ ps) f ≡ add_parts decode uuid store ps g
  unfolding add_parts ◌>>=◌
  add_parts_go p f g ps h = ap (λ o. o >>= (λ e. add_parts decode uuid store ps e)) h

  -- The texts that were found are the first ones; nothing is found if one of these cannot be decoded.
  abbrev pub Texts : Option Found → Found → List PartInfo → Type 0
  Texts none f ps =
      (first_text "text/plain" f.body ps ≡ none) ⊎ (first_text "text/html" f.html_body ps ≡ none)
  Texts (some g) f ps =
      (first_text "text/plain" f.body ps ≡ some g.body)
      × (first_text "text/html" f.html_body ps ≡ some g.html_body)

  nothing_read : (f : Found) → Texts (add_parts decode uuid store [] f) f []
  unfolding add_parts
  nothing_read f = (refl, refl)

  Texts-cons :
      (p : PartInfo) (f e : Found) (ps : List PartInfo) (o : Option Found)
      → add_part decode uuid store p f ≡ some e
      → Texts o e ps
      → Texts o f (p ∷ ps)
  Texts-cons p f e ps (some g) h k = (body_step p f e ps h ∙ k.0, html_step p f e ps h ∙ k.1)
  Texts-cons p f e ps none h (inl k) = inl (body_step p f e ps h ∙ k)
  Texts-cons p f e ps none h (inr k) = inr (html_step p f e ps h ∙ k)

  add_parts_lem : (ps : List PartInfo) (f : Found) → Texts (add_parts decode uuid store ps f) f ps
  add_parts_lem [] f = nothing_read f
  add_parts_lem (p ∷ ps) f = elim (Option-cases (add_part decode uuid store p f)) [
    | inl h ↦ rw (add_parts_stop p f ps h) (no_text p f ps h)
    | inr (e, h) ↦
        rw (add_parts_go p f e ps h)
          (Texts-cons p f e ps (add_parts decode uuid store ps e) h (add_parts_lem ps e))
  ]

  find_multipart :
      (p : PartInfo) (ps : Parts)
      → p.is_multipart ≡ true
      → find_bodies decode uuid store (part p ps)
        ≡ add_parts decode uuid store (p ∷ walk_all ps) nothing_found
  unfolding find_bodies
  find_multipart p ps h =
      ap
        (λ b.
          if b
          then add_parts decode uuid store (p ∷ walk_all ps) nothing_found
          else single decode uuid store p)
        h

  -- What parse_email_message takes for the texts of a multipart message: the first plain text and
  -- the first HTML text that are not empty, of the parts that are no attachments, in the order of
  -- the message; if nothing is found, one of the two searches has met an unknown charset.
  pub find_bodies_lem :
      (p : PartInfo) (ps : Parts)
      → p.is_multipart ≡ true
      → Texts (find_bodies decode uuid store (part p ps)) nothing_found (walk (part p ps))
  unfolding walk
  find_bodies_lem p ps h =
      rw (find_multipart p ps h) (add_parts_lem (p ∷ walk_all ps) nothing_found)
