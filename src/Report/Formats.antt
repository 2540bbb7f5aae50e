-- ===== src/Report/Formats.antt =====
-- internal/report/report.go: what the HTML report makes of its texts.
use text.Mathlib.TextLemmas.{append_assoc, nil-append}
use aegis_edr.Prelude.{
  String, List, [], ◌∷◌, ◌++◌, ◌≡◌, refl, sym, ap, ◌∙◌, ◌^^◌, true, ◌⊎◌, inl, inr, is_nonempty,
}
use aegis_edr.Report.{ReportData, Outside, list_items, card, html_head, generate_html}

-- The text stands in the page as it is.
abbrev pub Contains : String → String → Type 0
Contains page text = (start : String) × (end : String) × (page ≡ start ^^ text ^^ end)

Contains-before : (page more text : String) → Contains page text → Contains (page ^^ more) text
Contains-before page more text (start, end, split) =
    (start, end ^^ more, ap (λ p. p ^^ more) split ∙ append_assoc (start ^^ text) end more)

Contains-after : (more page text : String) → Contains page text → Contains (more ^^ page) text
Contains-after more page text (start, end, split) = (
  more ^^ start,
  end,
  ap (λ p. more ^^ p) split
      ∙ sym (append_assoc more (start ^^ text) end)
      ∙ ap (λ p. p ^^ end) (sym (append_assoc more start text)),
)

-- The item as markup of the page.
abbrev pub item_of : String → String
item_of text = "<li>" ^^ text ^^ "</li>"

list_items-Contains :
    (before after : List String) (text : String)
    → Contains (list_items (before ++ text ∷ after)) (item_of text)
unfolding list_items
list_items-Contains [] after text =
    ("", list_items after, ap (λ p. p ^^ list_items after) (sym (nil-append (item_of text))))
list_items-Contains (first ∷ before) after text =
    Contains-after (item_of first) (list_items (before ++ text ∷ after)) (item_of text)
      (list_items-Contains before after text)

card-Contains :
    (heading : String) (before after : List String) (text : String)
    → Contains (card heading (before ++ text ∷ after)) (item_of text)
unfolding card
card-Contains heading before after text = rw (nonempty before after text) (
    Contains-before _ "</ul></div>" (item_of text) (
      Contains-after _ (list_items (before ++ text ∷ after)) (item_of text)
        (list_items-Contains before after text)))
  where
    nonempty :
        (before after : List String) (text : String) → is_nonempty (before ++ text ∷ after) ≡ true
    nonempty [] after text = refl
    nonempty (first ∷ before) after text = refl

-- Every timeline event, MITRE tag and IOC match stands in the HTML report as it is, between the tags of
-- a list item: a text that holds markup is markup of the page.
pub generate_html-Contains :
    {Score : Type 0} (outside : Outside Score) (d : ReportData Score) (before after : List String)
    (text : String)
    → (d.timeline_events ≡ before ++ text ∷ after)
      ⊎ ((d.mitre_tags ≡ before ++ text ∷ after) ⊎ (d.ioc_matches ≡ before ++ text ∷ after))
    → Contains (generate_html outside d) (item_of text)
unfolding generate_html
generate_html-Contains outside d before after text listed = elim listed [
  | inl in_timeline ↦ Contains-before _ "</body></html>" _ (
      Contains-before _ _ _ (
        Contains-before _ _ _ (
          Contains-after (html_head outside d) _ _
            (rw in_timeline (card-Contains "Timeline Logs" before after text)))))
  | inr (inl in_tags) ↦ Contains-before _ "</body></html>" _ (
      Contains-before _ _ _ (
        Contains-after _ _ _
          (rw in_tags (card-Contains "MITRE ATT&CK Mappings" before after text))))
  | inr (inr in_matches) ↦
      Contains-before _ "</body></html>" _
        (Contains-after _ _ _ (rw in_matches (card-Contains "IOC Matches" before after text)))
]
