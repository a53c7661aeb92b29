-- ===== src/Tests/Labels.antt =====
-- The labels of a sandbox's container.
use d2p_migrator.Prelude.{[], ◌∷◌, ◌≡◌, refl, none, some, ◌++◌, Str, str, if◌then◌else◌}
use d2p_migrator.Prelude.Dict.{Dict, lookup, NodupKeys}
use d2p_migrator.Convertor.Sandbox.{annotation_prefix, annotations_or_empty, split_labels}
use d2p_migrator.Convertor.Sandbox.Labels.{or_else, stays, lookup-split_labels}
use d2p_migrator.Convertor.Sandbox.Annotations.{lookup-split}
use d2p_migrator.Tests.Everything.{everything}

abbrev labels : Dict Str
labels =
    (str "app", str "web")
    ∷ (str "annotation.a", str "1")
    ∷ (str "io.kubernetes.docker.type", str "podsandbox")
    ∷ []

labels-NodupKeys : NodupKeys labels
unfolding everything
labels-NodupKeys = (refl, (refl, (refl, tt)))

lookup-split_labels_run :
    lookup (str "app") (split_labels labels [] none).0
    ≡ (if stays (str "app") then lookup (str "app") labels else none)
lookup-split_labels_run = lookup-split_labels (str "app") labels none labels-NodupKeys

abbrev annotations : Dict Str
annotations = (str "a", str "0") ∷ (str "b", str "2") ∷ []

lookup-split_example :
    (lookup (str "a") (split_labels labels [] (some annotations)).0
      ≡ (if stays (str "a") then lookup (str "a") labels else none))
    × (lookup (str "a") (annotations_or_empty (split_labels labels [] (some annotations)).1)
        ≡ or_else
            (lookup (annotation_prefix ++ str "a") labels)
            (lookup (str "a") (annotations_or_empty (some annotations))))
lookup-split_example = lookup-split (str "a") labels (some annotations) labels-NodupKeys

left_labels : (split_labels labels [] none).0 ≡ (str "app", str "web") ∷ []
unfolding everything
left_labels = refl
