-- ===== src/Migrator/D2p/Images.antt =====
-- migrator/migrator.go: `PrepareImages`, which only pulls the images of the containers.
pub mod Quiet
use d2p_migrator.Prelude.{Bool, List, [], ◌∷◌, ◌++◌, Str, ◌==◌, str, if◌then◌else◌}
use d2p_migrator.Prelude.Result.{Result, ok, errorf}
use d2p_migrator.Docker
use d2p_migrator.Docker.Client.{container_list, container_inspect, image_inspect}
use d2p_migrator.Ctrd.Client.{get_image, pull_image}
use d2p_migrator.World.{Host, Io, pure, wrap_io, lift, attempt, done, failed, Attempt, ◌>>=◌, ◌>>◌}

-- The name of an image: its first tag, or its first digest.
name_of : Str → List Str → List Str → Result Str
name_of image (tag ∷ _) _ = ok tag
name_of image [] (digest ∷ _) = ok digest
name_of image [] [] = errorf (str "failed to get image " ++ image ++ str ": repoTags is empty")

unfoldable pub image_name : Str → Docker.ImageInspect → Result Str
unfolding name_of
image_name image inspect = name_of image inspect.repo_tags inspect.repo_digests

module _ (host : Host) (manifest_only : Bool) where
  pull_missing : Attempt Str → Str → Str → Io (Unit {0})
  pull_missing (done _) name snapshotter = pure tt
  pull_missing (failed _) name snapshotter =
      wrap_io (str "failed to pull image " ++ name ++ str ": ")
        (pull_image host name snapshotter manifest_only)

  prepare_image : Docker.ContainerSummary → Io (Unit {0})
  unfolding pull_missing
  prepare_image c = do
    meta ←
        wrap_io (str "failed to inspect container " ++ c.id ++ str ": ")
          (container_inspect host c.id)
    image ←
        wrap_io (str "failed to inspect image " ++ meta.image ++ str ": ")
          (image_inspect host meta.image)
    name ← lift (image_name meta.image image)
    found ← attempt (get_image host name)
    pull_missing found name
        (if meta.driver == str "overlay" then str "overlay1fs" else str "overlayfs")

  prepare_loop : List Docker.ContainerSummary → Io (Unit {0})
  unfolding prepare_image
  prepare_loop [] = pure tt
  prepare_loop (c ∷ cs) = do prepare_image c; prepare_loop cs

  unfoldable pub prepare_images : Io (Unit {0})
  unfolding prepare_loop
  prepare_images = do
    containers ← wrap_io (str "failed to get containers list: ") (container_list host)
    prepare_loop containers
