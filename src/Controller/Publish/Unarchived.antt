-- ===== src/Controller/Publish/Unarchived.antt =====
-- Forms without a source archive.
use openspmregistry.Prelude.{◌≡◌, refl, false, List, [], Option, none, Bool-cases, inl, inr}
use openspmregistry.Strings.{codes, eq_bytes}
use openspmregistry.Config.{ServerConfig}
use openspmregistry.Http.{ResponseWriter}
use openspmregistry.Models.Element.{Platform, UploadElement}
use openspmregistry.Repo.{Repo, Context}
use openspmregistry.Controller.Request.{Parts, eof, broken, next, write_error}
use openspmregistry.Controller.Publish.{
  Target, Stored, received, receive_parts, store_elements, parsed_or, finish,
}

-- No part is named as the source archive.
abbrev pub NoArchive : Parts → Type 0
NoArchive eof = Unit
NoArchive broken = Unit
NoArchive (next part parts) =
    (eq_bytes part.form_name (codes "source-archive") ≡ false) × NoArchive parts

module _ {S W : Type 0} (repo : Repo S W) (p : Platform) (ctx : Context) (t : Target) where
  receive_parts-NoArchive :
      (parts : Parts) (found o : Option UploadElement) (stored stored' : List UploadElement)
      (w w' : ResponseWriter) (s s' : S)
      → NoArchive parts
      → receive_parts repo p ctx t parts found stored w s ≡ received o stored' w' s'
      → found ≡ o
  unfolding receive_parts
  receive_parts-NoArchive eof found o stored stored' w w' s s' h e = cc
  receive_parts-NoArchive broken found o stored stored' w w' s s' h e = cc
  receive_parts-NoArchive (next part parts) found o stored stored' w w' s s' (other, h) e =
      elim (Bool-cases (step.failed)) [
        | inl failed ↦ cc (rw failed at e)
        | inr fine ↦
            receive_parts-NoArchive parts found o _ stored' step.response w' step.state s' h
              (rw (fine, other) at e)
      ]
    where
      step : Stored S
      step =
          store_elements repo p ctx w t part.form_name
            (parsed_or part.content_type (p.parse_media_type part.content_type)) part s

  -- A form without a source archive whose parts were all stored is answered as an error, yet what
  -- was stored stays: the state is that in which the loop ended.
  pub publish_without_archive :
      (c : ServerConfig) (parts : Parts) (o : Option UploadElement) (stored : List UploadElement)
      (w w' : ResponseWriter) (s s' : S)
      → NoArchive parts
      → receive_parts repo p ctx t parts none [] w s ≡ received o stored w' s'
      → finish repo p ctx t c (receive_parts repo p ctx t parts none [] w s)
        ≡ (write_error (codes "upload failed, nothing found to store") w', s')
  unfolding finish
  publish_without_archive c parts o stored w w' s s' h e =
      let same = receive_parts-NoArchive parts none o [] stored w w' s s' h e in
      rw (e, ← same, finish) refl
