-- ===== src/Workbench/Stopping.antt =====
-- The end of a session that was started.
use computecloud_node.Prelude.{◌≡◌, ◌∙◌, ap, [], str_eq, Bool-cases, inl, inr}
use computecloud_node.Prelude.Equality.{without, string_eq}
use computecloud_node.Workbench.{DockerSession, Machine, Site, stop_session}
use computecloud_node.Workbench.Kept.{kept, named, kept-stop_container, without_named, named_empty}

module _ {W : Type 0} (host : Machine W) where
  -- `stop_session` removes the container of its session, where that is the only one.
  pub kept-stop_session :
      (handle : DockerSession) (s : Site W)
      → kept s.ran ≡ named handle.container_id
      → kept (stop_session host handle s).ran ≡ []
  unfolding stop_session
  kept-stop_session handle s up = elim (Bool-cases (str_eq handle.container_id "")) [
    | inl bare ↦ rw bare (up ∙ named_empty handle.container_id bare)
    | inr named ↦ rw named (
        kept-stop_container host handle.container_id s
        ∙ ap (without handle.container_id) up
        ∙ without_named handle.container_id)
  ]
