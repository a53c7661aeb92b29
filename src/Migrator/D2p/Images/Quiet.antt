-- ===== src/Migrator/D2p/Images/Quiet.antt =====
-- migrator/migrator.go: `PrepareImages` disturbs no container.
use d2p_migrator.Prelude.{Bool, List, [], ◌∷◌, ◌≡◌, refl, Str, arith}
use d2p_migrator.Docker.{ContainerSummary}
use d2p_migrator.Ctrd.Client.{pull_image}
use d2p_migrator.Ctrd.Manifest.{RemoteOpt, pull_manifest}
use d2p_migrator.Ctrd.Manifest.Quiet.{Walks, number_of-pull_leased}
use d2p_migrator.Migrator.D2p.Images.{prepare_image, prepare_loop, prepare_images}
use d2p_migrator.Migrator.Quiet.Outage.{is_outage, image-outage}
use d2p_migrator.World.{Host, Trace}
use d2p_migrator.World.Calls.{number_of}

module _ (host : Host) (walks : Walks host is_outage) where
  outages-pull_manifest :
      (ref : Str) (opts : List RemoteOpt) (t : Trace)
      → number_of is_outage (pull_manifest host ref opts t).1 ≡ number_of is_outage t
  unfolding pull_manifest number_of
  outages-pull_manifest ref opts t =
      grind (arith, number_of-pull_leased host is_outage image-outage walks)

  outages-pull_image :
      (ref snapshotter : Str) (manifest_only : Bool) (t : Trace)
      → number_of is_outage (pull_image host ref snapshotter manifest_only t).1
        ≡ number_of is_outage t
  unfolding pull_image number_of
  outages-pull_image ref snapshotter manifest_only t = grind (arith, outages-pull_manifest)

  module _ (manifest_only : Bool) where
    outages-prepare_image :
        (c : ContainerSummary) (t : Trace)
        → number_of is_outage (prepare_image host manifest_only c t).1 ≡ number_of is_outage t
    unfolding prepare_image number_of
    outages-prepare_image c t = grind (arith, outages-pull_image)

    outages-prepare_loop :
        (cs : List ContainerSummary) (t : Trace)
        → number_of is_outage (prepare_loop host manifest_only cs t).1 ≡ number_of is_outage t
    unfolding prepare_loop
    outages-prepare_loop [] t = refl
    outages-prepare_loop (c ∷ cs) t =
        let (_, t') = prepare_image host manifest_only c t in
        grind (arith, outages-prepare_image c t, outages-prepare_loop cs t')

    pub outages-prepare_images :
        (t : Trace)
        → number_of is_outage (prepare_images host manifest_only t).1 ≡ number_of is_outage t
    unfolding prepare_images number_of
    outages-prepare_images t = grind (arith, outages-prepare_loop)
